-- ===== src/Url/Tests.antt =====
-- Examples of keys in a query.
use audd_cpp.Prelude.{◌≡◌, refl, [], ◌∷◌, ◌||◌}
use audd_cpp.Prelude.Text.{utf8, text_eq, after_byte}
use audd_cpp.Url.{url_query_has_key, query_has_key, add_return_to_url, join_csv}
use audd_cpp.Url.Pieces.{has_key, keys_of_query, url_query_has_key-pieces}
use audd_cpp.Url.Return.{add_return_to_url-keys}

url_query_has_key-pieces_example :
    url_query_has_key (utf8 "http://a/?x=1&b") (utf8 "b")
    ≡ has_key (utf8 "b") (keys_of_query (after_byte b'?' (utf8 "http://a/?x=1&b")))
url_query_has_key-pieces_example = url_query_has_key-pieces (utf8 "http://a/?x=1&b") (utf8 "b")

add_return_to_url-keys_example :
    url_query_has_key (utf8 "http://a/?x=1&return=spotify,deezer") (utf8 "x")
    ≡ (url_query_has_key (utf8 "http://a/?x=1") (utf8 "x") || text_eq (utf8 "return") (utf8 "x"))
unfolding add_return_to_url url_query_has_key query_has_key text_eq join_csv
add_return_to_url-keys_example =
    add_return_to_url-keys (utf8 "http://a/?x=1") (utf8 "spotify") (utf8 "deezer" ∷ [])
      (utf8 "http://a/?x=1&return=spotify,deezer") (utf8 "x") refl refl
