-- ===== src/Examples/Rename/Names.antt =====
-- The new names of examples/scan_and_rename.cpp.
use audd_cpp.Prelude.{
  ℕ, ◌≡◌, refl, ◌∙◌, ap, sym, true, false, none, some, List, [], ◌∷◌, ◌++◌, ◌==◌, arith, any, map,
  Bool-cases, inl, inr, Option-cases,
}
use mathlib.Core.Path.{subst}
use mathlib.Core.List.{append-nil, append_assoc}
use audd_cpp.Prelude.Text.{Text, utf8, is_empty, has_byte, text_eq}
use audd_cpp.Coerce.{to_lower}
use audd_cpp.Examples.Rename.{
  FilePath, slash, dot, from_last_dot, extension, extensions, is_audio, sanitize, new_name, descend,
  append_path, target,
}

has_byte-append :
    (c : ℕ) (s t : Text) → has_byte c s ≡ false → has_byte c t ≡ false → has_byte c (s ++ t) ≡ false
has_byte-append c [] t h k = k
has_byte-append c (x ∷ s) t h k = let ih = has_byte-append c s t in ground arith

sanitize-has_byte : (s : Text) → has_byte slash (sanitize s) ≡ false
unfolding sanitize
sanitize-has_byte [] = refl
sanitize-has_byte (c ∷ s) = ground (arith, sanitize-has_byte s)

from_last_dot-has_byte :
    (s t : Text) → has_byte slash s ≡ false → from_last_dot s ≡ some t → has_byte slash t ≡ false
unfolding from_last_dot
from_last_dot-has_byte [] t h e = cc
from_last_dot-has_byte (c ∷ s) t h e = ground (arith, from_last_dot-has_byte s t)

-- What stands from the last dot on has its own last dot in front.
from_last_dot_self : (s t : Text) → from_last_dot s ≡ some t → from_last_dot t ≡ some t
unfolding from_last_dot
from_last_dot_self [] t e = cc
from_last_dot_self (c ∷ s) t e = elim (Option-cases (from_last_dot s)) [
  | inl none_left ↦
      let own : (c == dot) ≡ true = ground arith in
      let same : c ∷ s ≡ t = ground arith in
      subst (λ u. from_last_dot u ≡ some u) same (rw (none_left, own) refl)
  | inr (u, found) ↦ from_last_dot_self s t (ground arith)
]

from_last_dot-append : (s t : Text) → from_last_dot t ≡ some t → from_last_dot (s ++ t) ≡ some t
unfolding from_last_dot
from_last_dot-append [] t e = e
from_last_dot-append (c ∷ s) t e = rw (from_last_dot-append s t e) refl

descend_lem :
    (folders : List Text) (before s : Text)
    → has_byte slash s ≡ false
    → descend folders before s ≡ record { folders = folders; name = before ++ s }
unfolding descend
descend_lem folders before [] h = rw append-nil refl
descend_lem folders before (c ∷ s) h = elim (Bool-cases (c == slash)) [
  | inl here ↦ absurd (ground arith)
  | inr plain ↦
      rw (plain, descend_lem folders (before ++ c ∷ []) s (ground arith))
        (ap (λ n. record { folders = folders; name = n }) (append_assoc before (c ∷ []) s))
]

append_path_lem :
    (folders : List Text) (s : Text)
    → has_byte slash s ≡ false
    → append_path folders s ≡ record { folders = folders; name = s }
unfolding append_path
append_path_lem folders [] h = descend_lem folders [] [] refl
append_path_lem folders (c ∷ s) h =
    let plain : (c == slash) ≡ false = ground arith in
    rw plain (rw plain at (descend_lem folders [] (c ∷ s) h))

extension-none : (c : ℕ) (s : Text) → from_last_dot s ≡ none → extension (c ∷ s) ≡ []
unfolding extension
extension-none c s e = rw (e, extension) refl

extension-some : (c : ℕ) (s t : Text) → from_last_dot s ≡ some t → extension (c ∷ s) ≡ t
unfolding extension
extension-some c s t e = rw (e, extension) refl

extension-has_byte :
    (name : Text) → has_byte slash name ≡ false → has_byte slash (extension name) ≡ false
extension-has_byte [] h = unfold extension in refl
extension-has_byte (c ∷ s) h = elim (Option-cases (from_last_dot s)) [
  | inl e ↦ rw (extension-none c s e) refl
  | inr (t, e) ↦ rw (extension-some c s t e) (from_last_dot-has_byte s t (ground arith) e)
]

no_extension : (name : Text) → is_audio name ≡ true → extension name ≡ [] → ⊥
unfolding is_audio
no_extension name h e =
    let none_fits : false ≡ true =
      subst (λ x. any (text_eq (map to_lower x)) extensions ≡ true) e h in
    cc none_fits

-- A name that is audio has an extension, and that is its own last dot with what follows.
extension_self :
    (name : Text) → is_audio name ≡ true → from_last_dot (extension name) ≡ some (extension name)
extension_self [] h = absurd (no_extension [] h (unfold extension in refl))
extension_self (c ∷ s) h = elim (Option-cases (from_last_dot s)) [
  | inl e ↦ absurd (no_extension (c ∷ s) h (extension-none c s e))
  | inr (t, e) ↦ rw (extension-some c s t e) (from_last_dot_self s t e)
]

extension-append :
    (s t : Text) → is_empty s ≡ false → from_last_dot t ≡ some t → extension (s ++ t) ≡ t
extension-append [] t h e = absurd (cc h)
extension-append (c ∷ s) t h e = extension-some c (s ++ t) t (from_last_dot-append s t e)

stem : Text → Text → Text
stem artist title = sanitize artist ++ (utf8 " - " ++ sanitize title)

stem-is_empty : (artist title : Text) → is_empty (stem artist title) ≡ false
unfolding stem sanitize
stem-is_empty [] title = refl
stem-is_empty (c ∷ artist) title = refl

new_name-stem :
    (artist title name : Text) → new_name artist title name ≡ stem artist title ++ extension name
unfolding new_name stem
new_name-stem artist title name =
    sym (append_assoc (sanitize artist) (utf8 " - " ++ sanitize title) (extension name))

new_name-has_byte :
    (artist title name : Text)
    → has_byte slash name ≡ false
    → has_byte slash (new_name artist title name) ≡ false
unfolding new_name
new_name-has_byte artist title name h =
    has_byte-append slash (sanitize artist) (utf8 " - " ++ (sanitize title ++ extension name))
      (sanitize-has_byte artist)
      (has_byte-append slash (sanitize title) (extension name) (sanitize-has_byte title)
        (extension-has_byte name h))

-- The new path of an audio file is in the same folder and has the same extension, whatever the names of the
-- artist and of the title hold.
pub target_lem :
    (path : FilePath) (artist title : Text)
    → has_byte slash path.name ≡ false
    → is_audio path.name ≡ true
    → ((target path artist title).folders ≡ path.folders)
      × (extension (target path artist title).name ≡ extension path.name)
      × (has_byte slash (target path artist title).name ≡ false)
unfolding target
target_lem path artist title h audio =
    let new = new_name artist title path.name in
    let plain = new_name-has_byte artist title path.name h in
    rw (append_path_lem path.folders new plain) (
      refl,
      ap extension (new_name-stem artist title path.name)
          ∙ extension-append (stem artist title) (extension path.name) (stem-is_empty artist title)
              (extension_self path.name audio),
      plain,
    )
