-- ===== src/Links/Tests.antt =====
-- An example of a link on lis.tn.
use audd_cpp.Prelude.{◌≡◌, refl, [], ◌∷◌, ◌++◌, if◌then◌else◌}
use audd_cpp.Prelude.Text.{utf8, text_eq, has_byte}
use audd_cpp.Links.{lis_tn_streaming_url}
use audd_cpp.Links.Laws.{lis_tn_streaming_url_lem}

lis_tn_streaming_url_lem_example : lis_tn_streaming_url (utf8 "https://lis.tn/x") (utf8 "thumb") ≡ (
    if text_eq (utf8 "lis.tn") (utf8 "lis.tn")
    then utf8 "https://lis.tn/x"
      ++ ((if has_byte b'?' (utf8 "https://lis.tn/x") then b'&' else b'?') ∷ utf8 "thumb")
    else [])
lis_tn_streaming_url_lem_example =
    lis_tn_streaming_url_lem (utf8 "https:") (utf8 "lis.tn") (utf8 "/x") (utf8 "thumb") refl refl
      refl
