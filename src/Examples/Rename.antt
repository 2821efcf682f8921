-- ===== src/Examples/Rename.antt =====
-- examples/scan_and_rename.cpp: the audio files of a folder are renamed after what they are recognised as.
-- A path is the folders above a file, outermost first, and its name; `std::filesystem` is that of POSIX.
pub mod Names
pub mod Kept
use audd_cpp.Prelude.{
  ℕ, Bool, true, false, not, ◌&&◌, ◌||◌, Option, none, some, List, [], ◌∷◌, ◌++◌, any, map, ◌==◌,
  if◌then◌else◌,
}
use audd_cpp.Prelude.Text.{Text, utf8, text_eq, is_empty, has_byte}
use audd_cpp.Http.{c_str}
use audd_cpp.Coerce.{to_lower}
use audd_cpp.Platform.{Platform}
use audd_cpp.Error.{Result, ok, err, audd, invalid_argument}
use audd_cpp.Http.Transport.{Curl}
use audd_cpp.Recognition.{RecognitionResult}
use audd_cpp.Source.{source_file_path}
use audd_cpp.Client.{AudD, World}
use audd_cpp.Client.Options.{RecognizeOptions}
use audd_cpp.Client.Recognize.{recognize}

pub record FilePath : Type 0 where
  pub folders : List Text
  pub name : Text

-- A directory entry that the walk visits, with `is_regular_file()`.
pub record Entry : Type 0 where
  pub path : FilePath
  pub is_regular : Bool

pub record File : Type 0 where
  pub path : FilePath
  pub contents : List ℕ

abbrev pub slash : ℕ
slash = b'/'

abbrev pub dot : ℕ
dot = b'.'

-- From the last dot on.
unfoldable pub from_last_dot : Text → Option Text
from_last_dot [] = none
from_last_dot (c ∷ s) = elim (from_last_dot s) [
  | some t ↦ some t
  | none ↦ if c == dot then some (c ∷ s) else none
]

-- `extension()`; a dot in front of the name does not count.
unfoldable pub extension : Text → Text
unfolding from_last_dot
extension [] = []
extension (c ∷ s) = elim (from_last_dot s) [ none ↦ [] | some t ↦ t ]

abbrev pub extensions : List Text
extensions = utf8 ".mp3" ∷ utf8 ".m4a" ∷ utf8 ".flac" ∷ utf8 ".ogg" ∷ utf8 ".wav" ∷ []

unfoldable pub is_audio : Text → Bool
unfolding extension text_eq
is_audio name = any (text_eq (map to_lower (extension name))) extensions

abbrev pub is_forbidden : ℕ → Bool
is_forbidden c =
    c == slash
    || c == 0x5c
    || c == b':'
    || c == b'*'
    || c == b'?'
    || c == 0x22
    || c == b'<'
    || c == b'>'
    || c == b'|'

unfoldable pub sanitize : Text → Text
sanitize [] = []
sanitize (c ∷ s) = (if is_forbidden c then b'_' else c) ∷ sanitize s

unfoldable pub new_name : Text → Text → Text → Text
unfolding sanitize extension
new_name artist title name = sanitize artist ++ (utf8 " - " ++ (sanitize title ++ extension name))

-- Each slash of a name that is appended to a path opens a folder.
unfoldable pub descend : List Text → Text → Text → FilePath
descend folders before [] = record { folders = folders; name = before }
descend folders before (c ∷ s) =
    let inside = descend (folders ++ before ∷ []) [] s in
    let along = descend folders (before ++ c ∷ []) s in if c == slash then inside else along

-- `folder / name`; a name in front of which a slash stands is a path from the root.
unfoldable pub append_path : List Text → Text → FilePath
unfolding descend
append_path folders [] = descend folders [] []
append_path folders (c ∷ s) = if c == slash then descend [] [] s else descend folders [] (c ∷ s)

unfoldable pub target : FilePath → Text → Text → FilePath
unfolding append_path new_name
target path artist title = append_path path.folders (new_name artist title path.name)

-- `string()`
unfoldable pub path_text : List Text → Text → Text
path_text [] name = name
path_text (folder ∷ folders) name = folder ++ slash ∷ path_text folders name

unfoldable pub texts_eq : List Text → List Text → Bool
unfolding text_eq
texts_eq [] [] = true
texts_eq [] (t ∷ ts) = false
texts_eq (s ∷ ss) [] = false
texts_eq (s ∷ ss) (t ∷ ts) = text_eq s t && texts_eq ss ts

unfoldable pub path_eq : FilePath → FilePath → Bool
unfolding texts_eq text_eq
path_eq p q = texts_eq p.folders q.folders && text_eq p.name q.name

-- The files at a path, and all others.
unfoldable pub files_at : FilePath → List File → List File
unfolding path_eq
files_at path [] = []
files_at path (f ∷ files) =
    let rest = files_at path files in if path_eq f.path path then f ∷ rest else rest

unfoldable pub files_off : FilePath → List File → List File
unfolding path_eq
files_off path [] = []
files_off path (f ∷ files) =
    let rest = files_off path files in if path_eq f.path path then rest else f ∷ rest

abbrev pub moved : FilePath → FilePath → File → File
moved old new f = if path_eq f.path old then record f { path = new } else f

-- The file system, what a `rename` put in the place of (`lost`, which steers nothing), and the world of
-- the client.
pub record Library : Type 0 where
  pub files : List File
  pub lost : List File
  pub world : World

-- A path that is passed as a C string ends before its first zero byte.
unfoldable pub cut : List Text → List Text → Text → FilePath
cut before [] name = record { folders = before; name = c_str name }
cut before (folder ∷ folders) name =
    let inside = cut (before ++ folder ∷ []) folders name in
    if has_byte 0 folder then record { folders = before; name = c_str folder } else inside

abbrev pub c_path : FilePath → FilePath
c_path path = cut [] path.folders path.name

-- `fs::rename` passes both paths as C strings and replaces the file at the new one. It throws where there is
-- no such file, or where `renames` says that the system refuses, as it does for a folder at the new path;
-- `false` is an exception that nobody catches.
unfoldable pub rename :
    (FilePath → FilePath → Bool) → FilePath → FilePath → Library → Bool × Library
unfolding files_at files_off cut
rename renames old new lib =
    let source = c_path old in
    let there = c_path new in
    if is_empty (files_at source lib.files) || not (renames source there) then (false, lib) else (
      true,
      record lib {
        files = map (moved source there) (files_off there lib.files);
        lost = files_at there lib.files ++ lib.lost;
      },
    )

abbrev pub no_options : RecognizeOptions
no_options = record { return_metadata = []; market = []; extra_parameters = [] }

module _ {D : Type 0} (renames : FilePath → FilePath → Bool) where
  -- The body of the loop behind the call of `recognize`.
  unfoldable pub place : FilePath → Result (Option (RecognitionResult D)) → Library → Bool × Library
  unfolding rename target path_eq
  place path (err (audd e)) lib = (true, lib)
  place path (err (invalid_argument what)) lib = (false, lib)
  place path (ok none) lib = (true, lib)
  place path (ok (some r)) lib =
      let new = target path r.artist r.title in
      if is_empty r.artist || is_empty r.title
      then (true, lib)
      else if path_eq new path
      then (true, lib)
      else rename renames path new lib

  unfoldable pub settle :
      FilePath → Result (Option (RecognitionResult D)) × World → Library → Bool × Library
  unfolding place
  settle path (r, w) lib = place path r (record lib { world = w })

module _ (P : Platform) (C : Curl) (opens : Text → Bool)
    (renames : FilePath → FilePath → Bool) where
  open P use {Double}

  unfoldable pub visit : AudD → Entry → Library → Bool × Library
  unfolding is_audio path_text settle
  visit client entry lib =
      let answer =
        recognize P C opens client (source_file_path (path_text entry.path.folders entry.path.name))
          no_options lib.world in
      if entry.is_regular && is_audio entry.path.name
      then settle renames entry.path answer lib
      else (true, lib)

  -- The loop over the entries, in whatever order the walk visits them.
  unfoldable pub scan : AudD → List Entry → Library → Bool × Library
  unfolding visit
  scan client [] lib = (true, lib)
  scan client (entry ∷ entries) lib =
      let (on, next) = visit client entry lib in
      let rest = scan client entries next in if on then rest else (false, next)
