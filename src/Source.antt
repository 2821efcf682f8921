-- ===== src/Source.antt =====
-- include/audd/source.hpp, and `prepare_source` of src/client.cpp with its copy in
-- src/custom_catalog.cpp.
pub mod Laws
mod Tests
use audd_cpp.Prelude.{
  ℕ, Bool, ◌||◌, Option, none, some, List, [], ◌∷◌, ◌++◌, any, ◌==◌, if◌then◌else◌,
}
use audd_cpp.Prelude.Text.{Text, utf8, is_empty, starts_with}
use audd_cpp.Prelude.Dict.{insert}
use audd_cpp.Error.{Exception, invalid_argument, Result, ok, err}
use audd_cpp.Http.{FileField, FormFields, no_fields}

pub record SourceBytes : Type 0 where
  pub bytes : List ℕ
  pub name : Text
  pub mime_type : Text

pub data Source : Type 0 where
  plain : Text → Source
  source_url : Text → Source
  source_file_path : Text → Source
  source_bytes : SourceBytes → Source

abbrev pub is_separator : ℕ → Bool
is_separator c = c == b'/' || c == 0x5c

-- `path.substr(path.find_last_of("/\\") + 1)`: what follows the last separator, or all of it.
unfoldable pub base_name : Text → Text
base_name [] = []
base_name (c ∷ path) = if any is_separator (c ∷ path) then base_name path else c ∷ path

unfoldable pub url_fields : Text → FormFields
url_fields url = record no_fields { form = insert "url" url [] }

unfoldable pub path_fields : Text → FormFields
unfolding base_name
path_fields path =
    let name = base_name path in
    record no_fields {
      file = some (record {
        name = if is_empty name then utf8 "upload.bin" else name;
        content_type = utf8 "application/octet-stream";
        path = path;
        bytes = [];
      });
    }

unfoldable pub bytes_fields : SourceBytes → FormFields
bytes_fields s = record no_fields {
  file = some (record { name = s.name; content_type = s.mime_type; path = []; bytes = s.bytes });
}

abbrev pub is_http_url : Text → Bool
is_http_url s = starts_with s (utf8 "http://") || starts_with s (utf8 "https://")

abbrev pub not_a_source : Text → Text
not_a_source s =
    utf8 "audd: \""
    ++ (s
        ++ utf8
            "\" is not an HTTP URL (must start with http:// or https://) and is not an existing file path; pass a URL string, a file path string, an audd::SourceBytes, or an explicit audd::SourceUrl / audd::SourceFilePath")

-- The text that src/custom_catalog.cpp throws instead.
abbrev pub not_an_upload : Text → Text
not_an_upload s = utf8 "audd: source not URL nor existing file: " ++ s

-- `opens path` is whether `fopen(path, "rb")` succeeds. The closure that is returned gives these fields
-- each time that it is called.
unfoldable pub prepare_source : (Text → Bool) → (Text → Text) → Source → Result FormFields
unfolding url_fields path_fields bytes_fields
prepare_source opens refusal (plain s) =
    if is_http_url s
    then ok (url_fields s)
    else if opens s
    then ok (path_fields s)
    else err (invalid_argument (refusal s))
prepare_source opens refusal (source_url url) = ok (url_fields url)
prepare_source opens refusal (source_file_path path) = ok (path_fields path)
prepare_source opens refusal (source_bytes s) = ok (bytes_fields s)

-- The copy in src/custom_catalog.cpp: the same cases, with another refusal.
unfoldable pub prepare_source_for_upload : (Text → Bool) → Source → Result FormFields
unfolding prepare_source
prepare_source_for_upload opens = prepare_source opens not_an_upload
