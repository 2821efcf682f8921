-- ===== src/Parse/Extras.antt =====
-- `extract_extras` of src/json_parse.cpp, and the members of a wanted type.
use audd_cpp.Prelude.{Bool, Option, none, some, List, [], ◌∷◌, String, any, if◌then◌else◌}
use audd_cpp.Prelude.Dict.{Dict}
use audd_cpp.Json.{Json, find, entries, elements, is_object}
use text.Mathlib.Text.{◌==◌ as str_eq}

-- `known_set.count(key) != 0`
abbrev pub is_known : List String → String → Bool
is_known known key = any (λ k. str_eq k key) known

-- The loop over the members; each key comes once, in order.
unfoldable pub unknown_entries {ℓ} : {V : Type ℓ} → List String → Dict V → Dict V
unknown_entries known [] = []
unknown_entries known ((key, v) ∷ ms) =
    let rest = unknown_entries known ms in if is_known known key then rest else (key, v) ∷ rest

module _ {D : Type 0} where
  unfoldable pub extract_extras : Json D → List String → Dict (Json D)
  unfolding unknown_entries
  extract_extras obj known = unknown_entries known (entries obj)

  -- `it != end() && it->is_array()`, and the elements; none without such a member.
  unfoldable pub array_at : Json D → String → List (Json D)
  unfolding find
  array_at j key = elim (find j key) [ none ↦ [] | some v ↦ elements v ]

  -- `it != end() && it->is_object()`
  unfoldable pub object_at : Json D → String → Option (Json D)
  unfolding find
  object_at j key = elim (find j key) [
    | none ↦ none
    | some v ↦ if is_object v then some v else none
  ]
