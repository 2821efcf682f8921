-- ===== src/Url.antt =====
-- src/json_parse.cpp and src/streams.cpp: keys in the query of a URL, and the `return` parameter.
pub mod Pieces
pub mod Return
mod Tests
use audd_cpp.Prelude.{
  ℕ, zero, suc, Bool, true, false, Option, none, some, List, [], ◌∷◌, ◌++◌, length, if◌then◌else◌,
}
use audd_cpp.Prelude.Text.{Text, utf8, text_eq, after_byte, before_byte, has_byte}
use audd_cpp.Prelude.Int.{pos}
use audd_cpp.Error.{Exception, Result, ok, err, audd, api, api_error}

-- The key of one `k=v` piece, or the piece itself.
abbrev pub key_of : Text → Text
key_of piece = before_byte b'=' piece

-- The loop: `query` is `query.substr(pos)`. A round takes a piece and its `&`, so the length and one
-- more are enough rounds.
unfoldable pub query_has_key : ℕ → Text → Text → Bool
unfolding text_eq
query_has_key zero query key = false
query_has_key (suc fuel) query key =
    let more : Bool = elim (after_byte b'&' query) [
      | none ↦ false
      | some rest ↦ query_has_key fuel rest key
    ] in
    if text_eq (key_of (before_byte b'&' query)) key then true else more

unfoldable pub url_query_has_key : Text → Text → Bool
unfolding query_has_key
url_query_has_key url key = elim (after_byte b'?' url) [
  | none ↦ false
  | some query ↦ query_has_key (suc (length query)) query key
]

-- The loops that join with commas, in `join_csv` of src/client.cpp too: no comma stands before the first.
unfoldable pub join_csv : List Text → Text
join_csv [] = []
join_csv (first ∷ []) = first
join_csv (first ∷ second ∷ rest) = first ++ b',' ∷ join_csv (second ∷ rest)

unfoldable pub add_return_to_url : Text → List Text → Result Text
unfolding url_query_has_key join_csv
add_return_to_url raw_url [] = ok raw_url
add_return_to_url raw_url (first ∷ rest) =
    if url_query_has_key raw_url (utf8 "return")
    then err (
        audd (
          api (
            api_error (pos 0)
              (utf8
                "callback URL already contains a `return` query parameter; pass an empty return_metadata or remove the parameter from the URL")
              (pos 0) [])))
    else ok (
        raw_url
        ++ ((if has_byte b'?' raw_url then b'&' else b'?')
            ∷ (utf8 "return=" ++ join_csv (first ∷ rest))))
