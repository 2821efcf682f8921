-- ===== src/Url/Return.antt =====
-- The callback URL that `add_return_to_url` of src/streams.cpp returns.
use audd_cpp.Prelude.{
  ℕ, ◌≡◌, refl, true, false, ◌||◌, none, some, List, [], ◌∷◌, ◌++◌, arith, ◌==◌, if◌then◌else◌,
  Bool-cases, Option-cases, inl, inr,
}
use audd_cpp.Prelude.Text.{Text, utf8, text_eq, after_byte, has_byte}
use audd_cpp.Error.{ok, if_ok}
use audd_cpp.Url.{url_query_has_key, join_csv, add_return_to_url}
use audd_cpp.Url.Pieces.{
  pieces, has_key, url_query_has_key-pieces, has_key-append, pieces-append, pieces_one,
}

after-has : (c : ℕ) (s rest : Text) → after_byte c s ≡ some rest → has_byte c s ≡ true
after-has c [] rest h = ground (arith, h)
after-has c (x ∷ s) rest h = ground (arith, h, after-has c s rest)

after-has_not : (c : ℕ) (s : Text) → after_byte c s ≡ none → has_byte c s ≡ false
after-has_not c [] h = refl
after-has_not c (x ∷ s) h = ground (arith, h, after-has_not c s)

after-append :
    (c : ℕ) (s t rest : Text)
    → after_byte c s ≡ some rest
    → after_byte c (s ++ t) ≡ some (rest ++ t)
after-append c [] t rest h = ground (arith, h)
after-append c (x ∷ s) t rest h = elim (Bool-cases (x == c)) [
  | inl e ↦ let same : s ≡ rest = ground (arith, h, e) in rw (e, same) refl
  | inr e ↦
      let later : after_byte c s ≡ some rest = ground (arith, h, e) in
      rw e (after-append c s t rest later)
]

after-append_not : (c : ℕ) (s t : Text) → after_byte c s ≡ none → after_byte c (s ++ c ∷ t) ≡ some t
after-append_not c [] t h = ground arith
after-append_not c (x ∷ s) t h = ground (arith, h, after-append_not c s t)

-- The parameter that is added.
abbrev pub parameter : Text → Text
parameter csv = utf8 "return=" ++ csv

abbrev pub extended : Text → Text → Text
extended url csv = url ++ ((if has_byte b'?' url then b'&' else b'?') ∷ parameter csv)

key-parameter :
    (key csv : Text)
    → has_byte b'&' csv ≡ false
    → has_key key (pieces (parameter csv)) ≡ text_eq (utf8 "return") key
key-parameter key csv h = rw (pieces_one (parameter csv) h) (ground arith)

extended-keys :
    (url csv key : Text)
    → has_byte b'&' csv ≡ false
    → url_query_has_key (extended url csv) key
      ≡ (url_query_has_key url key || text_eq (utf8 "return") key)
extended-keys url csv key h = elim (Option-cases (after_byte b'?' url)) [
  | inl e ↦
      rw
        (
          url_query_has_key-pieces (extended url csv) key,
          url_query_has_key-pieces url key,
          after-has_not b'?' url e,
          after-append_not b'?' url (parameter csv) e,
          e,
        )
        (key-parameter key csv h)
  | inr (query, e) ↦
      rw
        (
          url_query_has_key-pieces (extended url csv) key,
          url_query_has_key-pieces url key,
          after-has b'?' url query e,
          after-append b'?' url (b'&' ∷ parameter csv) query e,
          e,
          pieces-append query (parameter csv),
          has_key-append key (pieces query) (pieces (parameter csv)),
          key-parameter key csv h,
        )
        refl
]

-- The URL that comes back has the keys of the one that was given, and `return`, and no other: an existing
-- query is extended, and a URL without one gets one. It is stated where a URL comes back and the joined names
-- to return have no `&`.
pub add_return_to_url-keys :
    (url : Text) (name : Text) (names : List Text) (final key : Text)
    → has_byte b'&' (join_csv (name ∷ names)) ≡ false
    → add_return_to_url url (name ∷ names) ≡ ok final
    → (url_query_has_key final key ≡ (url_query_has_key url key || text_eq (utf8 "return") key))
unfolding add_return_to_url
add_return_to_url-keys url name names final key plain h =
    rw
      (← (if_ok (url_query_has_key url (utf8 "return")) _ (extended url (join_csv (name ∷ names)))
        final h).1)
      (extended-keys url (join_csv (name ∷ names)) key plain)
