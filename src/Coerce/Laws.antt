-- ===== src/Coerce/Laws.antt =====
-- The Boolean words of src/json_parse.cpp.
use audd_cpp.Prelude.{
  ℕ, ◌≡◌, refl, sym, ap, ◌∙◌, ◌&&◌, [], ◌∷◌, ◌++◌, map, arith, Bool-cases, inl, inr,
}
use audd_cpp.Prelude.Text.{Text, is_empty}
use audd_cpp.Json.{str}
use audd_cpp.Platform.{Platform}
use audd_cpp.Coerce.{is_ws, trim_start, trim_end, trim_ascii, to_lower, bool_of_word, coerce_bool}
use audd_cpp.Coerce.Trim.{IsBlank, trim_ascii_blank}

is_ws-to_lower : (c : ℕ) → is_ws (to_lower c) ≡ is_ws c
is_ws-to_lower c = ground arith

trim_start-map : (s : Text) → trim_start (map to_lower s) ≡ map to_lower (trim_start s)
unfolding trim_start
trim_start-map [] = refl
trim_start-map (c ∷ s) = elim (Bool-cases (is_ws c)) [
  | inl blank ↦ rw (is_ws-to_lower c, blank) (trim_start-map s)
  | inr solid ↦ rw (is_ws-to_lower c, solid) refl
]

is_empty-map : (s : Text) → is_empty (map to_lower s) ≡ is_empty s
is_empty-map [] = refl
is_empty-map (c ∷ s) = refl

trim_end-map : (s : Text) → trim_end (map to_lower s) ≡ map to_lower (trim_end s)
unfolding trim_end
trim_end-map [] = refl
trim_end-map (c ∷ s) = elim (Bool-cases (is_empty (trim_end s) && is_ws c)) [
  | inl dropped ↦ rw (trim_end-map s, is_empty-map (trim_end s), is_ws-to_lower c, dropped) refl
  | inr kept ↦ rw (trim_end-map s, is_empty-map (trim_end s), is_ws-to_lower c, kept) refl
]

trim_ascii-map : (s : Text) → trim_ascii (map to_lower s) ≡ map to_lower (trim_ascii s)
unfolding trim_ascii
trim_ascii-map s = ap trim_end (trim_start-map s) ∙ trim_end-map (trim_start s)

-- A text reads as the same Boolean in any letter case and with any blanks around it.
pub coerce_bool_insensitive :
    (P : Platform) (before s after t : Text)
    → IsBlank before
    → IsBlank after
    → map to_lower s ≡ map to_lower t
    → coerce_bool P (str (before ++ (s ++ after))) ≡ coerce_bool P (str t)
unfolding coerce_bool
coerce_bool_insensitive P before s after t hb ha same = ap bool_of_word (
    ap (map to_lower) (trim_ascii_blank before s after hb ha)
    ∙ sym (trim_ascii-map s)
    ∙ ap trim_ascii same
    ∙ trim_ascii-map t)
