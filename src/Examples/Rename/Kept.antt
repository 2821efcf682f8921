-- ===== src/Examples/Rename/Kept.antt =====
-- What examples/scan_and_rename.cpp keeps of the files.
use mathlib.Core.List.{Perm}
use mathlib.Core.List.Perm
use audd_cpp.Prelude.{ℕ, Bool, List, ◌++◌, map}
use audd_cpp.Prelude.Text.{Text}
use audd_cpp.Platform.{Platform}
use audd_cpp.Examples.Rename.{File, Library}

-- What of a file a renaming is to leave: its folder and its contents.
pub record Kept : Type 0 where
  pub folders : List Text
  pub contents : List ℕ

abbrev pub kept : File → Kept
kept f = record { folders = f.path.folders; contents = f.contents }

-- The files of `lib`, and before them those that were replaced.
abbrev pub all_kept : Library → List Kept
all_kept lib = map kept lib.files ++ map kept lib.lost

abbrev Keeps : Library → Bool × Library → Type 0
Keeps lib (goes_on, next) = Perm (all_kept next) (all_kept lib)
