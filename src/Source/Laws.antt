-- ===== src/Source/Laws.antt =====
-- The name of an uploaded file, and the choice of src/client.cpp between a URL and a path.
use audd_cpp.Prelude.{
  ◌≡◌, refl, ap, Bool, true, false, [], ◌∷◌, ◌++◌, any, arith, if◌then◌else◌, Bool-cases, inl, inr,
}
use audd_cpp.Prelude.Text.{Text}
use audd_cpp.Source.{base_name, is_separator}

-- The directory part: what stands before the name.
abbrev pub directory : Text → Text
directory [] = []
directory (c ∷ path) =
    let rest = directory path in if any is_separator (c ∷ path) then c ∷ rest else []

abbrev pub ends_in_separator : Text → Bool
ends_in_separator [] = true
ends_in_separator (c ∷ []) = is_separator c
ends_in_separator (c ∷ d ∷ s) = ends_in_separator (d ∷ s)

no_separator : (path : Text) → any is_separator (base_name path) ≡ false
unfolding base_name
no_separator [] = refl
no_separator (c ∷ path) = elim (Bool-cases (any is_separator (c ∷ path))) [
  | inl e ↦ rw e (no_separator path)
  | inr e ↦ rw e e
]

split_at_name : (path : Text) → directory path ++ base_name path ≡ path
unfolding base_name
split_at_name [] = refl
split_at_name (c ∷ path) = elim (Bool-cases (any is_separator (c ∷ path))) [
  | inl e ↦ rw e (ap (λ l. c ∷ l) (split_at_name path))
  | inr e ↦ rw e refl
]

ends : (path : Text) → ends_in_separator (directory path) ≡ true
ends [] = refl
ends (c ∷ []) = ground arith
ends (c ∷ d ∷ path) = ground (arith, ends (d ∷ path))

-- The name under which a file is uploaded: a path is its directory and its name, the name has no `/` and no
-- backslash, and the directory is empty or ends in one of them.
pub base_name_lem :
    (path : Text)
    → (directory path ++ base_name path ≡ path)
      × (any is_separator (base_name path) ≡ false)
      × (ends_in_separator (directory path) ≡ true)
base_name_lem path = (split_at_name path, no_separator path, ends path)
