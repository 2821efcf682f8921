-- ===== src/Http/Tests.antt =====
-- Examples of a query and of the headers of a response.
use audd_cpp.Prelude.{ℕ, ◌≤◌, ◌≡◌, refl, Bool, true, false, none, some, List, [], ◌∷◌, ◌++◌}
use audd_cpp.Prelude.Int.{pos}
use audd_cpp.Prelude.Text.{Text, utf8, text_eq}
use audd_cpp.Prelude.Dict.{Dict}
use audd_cpp.Platform.Sample.{platform, curl}
use audd_cpp.Http.{response_of}
use audd_cpp.Http.Init.{Pc, begin, schedule}
use audd_cpp.Http.Init.Once.{successes, IsFinal, is_inside, schedule-once}
use audd_cpp.Http.Transport.{Transfer, CurlCode}
use audd_cpp.Http.Query.{build_query}
use audd_cpp.Http.Capture.{request_id-response_of}
use audd_cpp.Http.Decoded.{decode_query, entries, decode_query-build_query}

abbrev params : Dict Text
params = ("category", utf8 "abc") ∷ ("timeout", utf8 "50") ∷ []

query_text : build_query curl [] params ≡ utf8 "category=abc&timeout=50"
unfolding build_query
query_text = refl

decode_query-build_query_example :
    decode_query (λ s. s) (build_query curl [] params) ≡ entries params
decode_query-build_query_example =
    decode_query-build_query curl (λ s. s) params
      (((refl, refl, refl), (refl, refl, refl)), (((refl, refl, refl), (refl, refl, refl)), tt))

abbrev header : Text
header = utf8 "X-Request-ID:" ++ (utf8 " " ++ (utf8 "a b" ++ (0x20 ∷ 0x0d ∷ 0x0a ∷ [])))

abbrev transfer : Transfer
transfer = record {
  easy_init = true;
  attached = true;
  code = CurlCode.curl_ok;
  uploaded = none;
  status = pos 200;
  received = [];
  headers = (utf8 "x-request-id: old" ∷ []) ++ header ∷ utf8 "Server: s" ∷ [];
}

request_id-response_of_example : (response_of platform curl transfer).request_id ≡ utf8 "a b"
unfolding text_eq
request_id-response_of_example =
    request_id-response_of platform curl transfer (utf8 "x-request-id: old" ∷ [])
      (utf8 "Server: s" ∷ []) (utf8 "X-Request-ID:") (utf8 " ") (utf8 "a b")
      (0x20 ∷ 0x0d ∷ 0x0a ∷ []) refl refl (refl, tt) refl refl (refl, (refl, (refl, tt))) (refl, tt)

-- Two threads call `global_init`; the first call of libcurl fails, and the other thread goes on to a second.
abbrev race : List (ℕ × Bool)
race =
    (0, false)
    ∷ (1, false)
    ∷ (0, false)
    ∷ (0, false)
    ∷ (1, true)
    ∷ (0, false)
    ∷ (0, false)
    ∷ (1, true)
    ∷ (1, true)
    ∷ (1, true)
    ∷ (1, true)
    ∷ (1, true)
    ∷ []

race_calls :
    ((schedule race begin).calls ≡ true ∷ false ∷ [])
    × ((schedule race begin).pc 0 ≡ Pc.thrown)
    × ((schedule race begin).pc 1 ≡ Pc.returned)
unfolding schedule
race_calls = (refl, refl, refl)

schedule-once_example :
    let s = schedule race begin in
    (successes s.calls ≤ 1)
    × IsFinal s.calls
    × ((i : ℕ) → s.pc i ≡ Pc.returned → (s.initialized ≡ true) × (successes s.calls ≡ 1))
    × ((i j : ℕ) → is_inside (s.pc i) ≡ true → is_inside (s.pc j) ≡ true → i ≡ j)
    × ((i : ℕ) → s.holder ≡ some i → is_inside (s.pc i) ≡ true)
schedule-once_example = schedule-once race
