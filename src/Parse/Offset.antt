-- ===== src/Parse/Offset.antt =====
-- `offset_to_seconds` of src/json_parse.cpp.
use audd_cpp.Prelude.{ℕ, Option, none, some, List, [], ◌∷◌, ◌++◌, length, ltb, ◌==◌, if◌then◌else◌}
use audd_cpp.Prelude.Int.{pos}
use audd_cpp.Prelude.Text.{Text, is_empty}
use audd_cpp.Platform.{Platform}

-- The loop over the characters: `cur` so far, and the parts behind it.
unfoldable pub split_colons : Text → Text → List Text
split_colons cur [] = cur ∷ []
split_colons cur (ch ∷ offset) =
    let next = split_colons [] offset in
    let longer = split_colons (cur ++ ch ∷ []) offset in if ch == b':' then cur ∷ next else longer

module _ (P : Platform) where
  open P use {Double, of_int, add, mul, stod}

  abbrev pub consumed_all : Text → Option (Double × ℕ) → Option Double
  consumed_all s none = none
  consumed_all s (some (v, consumed)) = if consumed == length s then some v else none

  unfoldable pub parse_component : Text → Option Double
  parse_component s = if is_empty s then none else consumed_all s (stod s)

  unfoldable pub sum_components : Double → List Text → Option Double
  unfolding parse_component
  sum_components total [] = some total
  sum_components total (p ∷ parts) = elim (parse_component p) [
    | none ↦ none
    | some v ↦ sum_components (add (mul total (of_int (pos 60))) v) parts
  ]

  unfoldable pub offset_to_seconds : Text → Option Double
  unfolding split_colons sum_components
  offset_to_seconds offset =
      let parts = split_colons [] offset in
      if is_empty offset
      then none
      else if ltb 3 (length parts)
      then none
      else sum_components (of_int (pos 0)) parts
