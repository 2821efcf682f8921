-- ===== src/Longpoll/Rounds.antt =====
-- The worker of src/longpoll.cpp on the network: its requests go through `HttpClient::get` of
-- src/http_client.cpp, and each round ends at the test of the loop or behind it.
pub mod Event
use mathlib.Core.Path.{subst}
use audd_cpp.Prelude.{
  ℕ, zero, suc, ◌+◌, ◌*◌, ◌≡◌, refl, sym, ap, ◌∙◌, Bool, true, false, not, ◌&&◌, [], ◌∷◌, ◌++◌, min,
  if◌then◌else◌, Bool-cases, inl, inr, arith,
}
use audd_cpp.Prelude.Int.{ℤ, pos, ltb_ℤ}
use audd_cpp.Prelude.Text.{Text, utf8, is_empty}
use audd_cpp.Prelude.Dict.{Dict}
use audd_cpp.Platform.{Platform}
use audd_cpp.Json.{find}
use audd_cpp.Recognition.{has_value}
use audd_cpp.Error.{Result, ok, err, audd, connection_error}
use audd_cpp.Http.{HttpResponse, HttpClient, Network, get, perform, response_of}
use audd_cpp.Http.Transport.{Curl, Transfer, is_ok, perform_failed_before_upload}
use audd_cpp.Parse.Songs.{StreamCallbackMatch}
use audd_cpp.Callback.{parse_callback, matched}
use audd_cpp.Client.{AudD}
use audd_cpp.Client.Recognize.{api_base}
use audd_cpp.Longpoll.{Poll, Phase, test, wake, receive, poll_params, backoff_cap, respond}
use audd_cpp.Longpoll.Laws.{respond-matched, respond-survives}

module _ (P : Platform) (C : Curl) where
  open P use {Double}
  open C use {strerror}

  -- `parent->internal()->standard_http->get(url, params)`
  unfoldable pub request : AudD → Text → ℤ → ℤ → Network → Result (HttpResponse Double) × Network
  unfolding poll_params get
  request c category timeout cur_since =
      get P C c.standard_http (api_base ++ utf8 "/longpoll/")
        (poll_params category timeout cur_since)

  -- The wait behind a connection error.
  abbrev pub rest : Poll Double → Poll Double
  rest p = elim p.phase [ Phase.sleeping ↦ wake p | _ ↦ p ]

  abbrev pub answered :
      Text → Poll Double → Result (HttpResponse Double) × Network → Poll Double × Network
  answered failure p (r, n) = (rest (receive P failure r p), n)

  -- The body of the loop where the worker is in it.
  abbrev pub enter : AudD → Text → ℤ → Text → Poll Double → Network → Poll Double × Network
  enter c category timeout failure p n = elim p.phase [
    | Phase.requesting ↦ answered failure p (request c category timeout p.cur_since n)
    | _ ↦ (p, n)
  ]

  -- One round: the test of the loop, the request, and what follows it.
  unfoldable pub round : AudD → Text → ℤ → Text → Poll Double × Network → Poll Double × Network
  unfolding test request receive wake
  round c category timeout failure (p, n) = enter c category timeout failure (test p) n

  abbrev pub rounds : AudD → Text → ℤ → Text → ℕ → Poll Double × Network → Poll Double × Network
  rounds c category timeout failure zero s = s
  rounds c category timeout failure (suc k) s =
      rounds c category timeout failure k (round c category timeout failure s)

  -- A transfer that ends in a connection error.
  abbrev pub is_blip : Transfer → Bool
  is_blip t = not (t.easy_init && is_ok t.code)

  abbrev pub all_blips : (ℕ → Transfer) → ℕ → ℕ → Bool
  all_blips answers next zero = true
  all_blips answers next (suc k) = is_blip (answers next) && all_blips answers (suc next) k

  pub both : (a b : Bool) → (a && b) ≡ true → (a ≡ true) × (b ≡ true)
  both true b h = (refl, h)
  both false b h = absurd (ground (arith, h))

  -- How a `get` ends.
  abbrev pub get_end : Transfer → Result (HttpResponse Double)
  get_end t =
      if t.easy_init && is_ok t.code
      then ok (response_of P C t)
      else err (
          audd (
            if t.easy_init
            then connection_error (strerror t.code) (perform_failed_before_upload t)
            else connection_error (utf8 "curl_easy_init failed") true))

  pub get-end :
      (http : HttpClient) (url : Text) (params : Dict Text) (n : Network)
      → let (r, m) = get P C http url params n in
        (r ≡ get_end (n.answers n.asked)) × (m.answers ≡ n.answers) × (m.asked ≡ suc n.asked)
  unfolding get perform
  get-end http url params n =
      let t = n.answers n.asked in
      elim (Bool-cases t.easy_init) [
        | inr e ↦ rw e (refl, refl, omega arith)
        | inl e ↦ elim (Bool-cases (is_ok t.code)) [
          | inl k ↦ rw (e, k) (refl, refl, omega arith)
          | inr k ↦ rw (e, k) (refl, refl, omega arith)
        ]
      ]
