-- ===== src/Coerce/Trim.antt =====
-- `trim_ascii` of src/json_parse.cpp.
use audd_cpp.Prelude.{
  ◌≡◌, refl, ap, ◌∙◌, true, false, [], ◌∷◌, ◌++◌, arith, All, Bool-cases, inl, inr,
}
use audd_cpp.Prelude.Text.{Text}
use audd_cpp.Coerce.{is_ws, trim_start, trim_end, trim_ascii}

abbrev pub IsBlank : Text → Type 0
IsBlank s = All (λ c. is_ws c ≡ true) s

abbrev pub NotBlank : Text → Type 0
NotBlank s = All (λ c. is_ws c ≡ false) s

trim_start-append : (p s : Text) → IsBlank p → trim_start (p ++ s) ≡ trim_start s
unfolding trim_start
trim_start-append [] s h = refl
trim_start-append (c ∷ p) s h = rw h.0 (trim_start-append p s h.1)

trim_end_blank : (w : Text) → IsBlank w → trim_end w ≡ []
unfolding trim_end
trim_end_blank [] h = refl
trim_end_blank (c ∷ w) h = rw (trim_end_blank w h.1, h.0) refl

trim_end-append : (s w : Text) → IsBlank w → trim_end (s ++ w) ≡ trim_end s
unfolding trim_end
trim_end-append [] w h = trim_end_blank w h
trim_end-append (c ∷ s) w h = rw (trim_end-append s w h) refl

trim_end_solid : (s : Text) → NotBlank s → trim_end s ≡ s
unfolding trim_end
trim_end_solid [] h = refl
trim_end_solid (c ∷ s) h = rw (trim_end_solid s h.1, h.0) (ground arith)

trim_start_blank : (w : Text) → IsBlank w → trim_start w ≡ []
unfolding trim_start
trim_start_blank [] h = refl
trim_start_blank (c ∷ w) h = rw h.0 (trim_start_blank w h.1)

trim_start_solid : (s w : Text) → NotBlank s → IsBlank w → trim_end (trim_start (s ++ w)) ≡ s
unfolding trim_start
trim_start_solid [] w h k = rw (trim_start_blank w k) (unfold trim_end in refl)
trim_start_solid (c ∷ s) w h k = rw h.0 (trim_end-append (c ∷ s) w k ∙ trim_end_solid (c ∷ s) h)

trim_start-append_blank :
    (s w : Text) → IsBlank w → trim_end (trim_start (s ++ w)) ≡ trim_end (trim_start s)
unfolding trim_start
trim_start-append_blank [] w k = rw (trim_start_blank w k) refl
trim_start-append_blank (c ∷ s) w k = elim (Bool-cases (is_ws c)) [
  | inl blank ↦ rw blank (trim_start-append_blank s w k)
  | inr solid ↦ rw solid (trim_end-append (c ∷ s) w k)
]

-- Blanks around a text without blanks are what is trimmed.
pub trim_ascii_solid :
    (p s w : Text) → IsBlank p → NotBlank s → IsBlank w → trim_ascii (p ++ (s ++ w)) ≡ s
unfolding trim_ascii
trim_ascii_solid p s w hp hs hw =
    ap trim_end (trim_start-append p (s ++ w) hp) ∙ trim_start_solid s w hs hw

-- Trimming does not see blanks that are added on either side.
pub trim_ascii_blank :
    (p s w : Text) → IsBlank p → IsBlank w → trim_ascii (p ++ (s ++ w)) ≡ trim_ascii s
unfolding trim_ascii
trim_ascii_blank p s w hp hw =
    ap trim_end (trim_start-append p (s ++ w) hp) ∙ trim_start-append_blank s w hw
