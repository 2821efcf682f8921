-- ===== src/SubClients/Subscribe.antt =====
-- `StreamsClient::longpoll` of src/streams.cpp: the preflight, and the start of the worker.
use audd_cpp.Prelude.{
  ◌≡◌, refl, ◌∙◌, Bool, true, false, not, ◌&&◌, Option, none, some, [], ◌∷◌, ◌++◌, String, arith,
  if◌then◌else◌, Bool-cases, inl, inr,
}
use audd_cpp.Prelude.Int.{ℤ, pos, ltb_ℤ}
use audd_cpp.Prelude.Text.{Text, utf8, is_empty}
use audd_cpp.Prelude.Dict.{Dict, lookup, insert, lookup-insert}
use audd_cpp.Prelude.Decimal.{to_string}
use audd_cpp.Platform.{Platform}
use audd_cpp.Error.{Result, ok, err}
use audd_cpp.Retry.{Exec}
use audd_cpp.Http.{
  HttpClient, HttpResponse, Network, Request, no_body, c_str, get, perform, with_query,
  inject_token,
}
use audd_cpp.Http.Query.{build_query}
use audd_cpp.Http.Token.{lookup-inject_token}
use audd_cpp.Http.Transport.{Curl, is_ok}
use audd_cpp.Md5.Context.{Md5Ctx}
use audd_cpp.Client.{AudD, World}
use audd_cpp.Longpoll.{Poll, start, test, timeout_of, poll_params}
use audd_cpp.Longpoll.Rounds.{answered, request, round}
use audd_cpp.Client.Recognize.{api_base}
use audd_cpp.Longpoll.Category.{derive_longpoll_category}
use audd_cpp.SubClients.{preflight}
use text.Mathlib.Text.{◌==◌ as str_eq}

pub record LongpollOptions : Type 0 where
  pub since_time : ℤ
  pub timeout_seconds : ℤ
  pub skip_callback_check : Bool

abbrev pub default_options : LongpollOptions
default_options = record {
  since_time = pos 0;
  timeout_seconds = pos 50;
  skip_callback_check = false;
}

-- What the closure of the worker captures, and the state that it works on.
pub record Subscription (D : Type 0) : Type 0 where
  pub category : Text
  pub timeout : ℤ
  pub poll : Poll D

unfoldable pub start_longpoll : {D : Type 0} → Text → LongpollOptions → Subscription D
unfolding start
start_longpoll category opts = record {
  category = category;
  timeout = timeout_of opts.timeout_seconds;
  poll = start opts.since_time;
}

module _ (P : Platform) (C : Curl) where
  open P use {Double}

  unfoldable pub longpoll : AudD → Text → LongpollOptions → Exec World (Subscription Double)
  unfolding preflight start_longpoll
  longpoll c category opts w =
      let (refused, w') = preflight P C opts.skip_callback_check c w in
      elim refused [ some e ↦ (err e, w') | none ↦ (ok (start_longpoll category opts), w') ]

  -- `StreamsClient::derive_longpoll_category`
  abbrev pub category_of_radio : Md5Ctx → AudD → ℤ → Text
  category_of_radio fresh c radio_id = derive_longpoll_category fresh c.api_token radio_id

  -- The overload by radio.
  unfoldable pub longpoll_radio :
      Md5Ctx → AudD → ℤ → LongpollOptions → Exec World (Subscription Double)
  unfolding derive_longpoll_category longpoll
  longpoll_radio fresh c radio_id opts = longpoll c (category_of_radio fresh c radio_id) opts

timeout_of-positive : (seconds : ℤ) → ltb_ℤ (pos 0) (timeout_of seconds) ≡ true
timeout_of-positive seconds = elim (Bool-cases (ltb_ℤ (pos 0) seconds)) [
  | inl h ↦ rw h h
  | inr h ↦ rw h refl
]

lookup-poll_params :
    (category : Text) (timeout since : ℤ) (key : String)
    → lookup key (poll_params category timeout since) ≡ (
        if ltb_ℤ (pos 0) since && str_eq "since_time" key
        then some (to_string since)
        else if str_eq "timeout" key
        then some (to_string timeout)
        else if str_eq "category" key
        then some category
        else none)
unfolding poll_params lookup
lookup-poll_params category timeout since key =
    let first = lookup-insert "category" key category [] in
    let asked = lookup-insert "timeout" key (to_string timeout) (insert "category" category []) in
    elim (Bool-cases (ltb_ℤ (pos 0) since)) [
      | inl h ↦
          rw
            (
              h,
              lookup-insert "since_time" key (to_string since)
                  (insert "timeout" (to_string timeout) (insert "category" category [])),
              asked,
              first,
            )
            refl
      | inr h ↦ rw (h, asked, first) refl
    ]

-- What the first request carries under each key.
abbrev pub first_param : Text → Text → LongpollOptions → String → Option Text
first_param token category opts key =
    if str_eq "api_token" key && not (is_empty token)
    then some token
    else if ltb_ℤ (pos 0) opts.since_time && str_eq "since_time" key
    then some (to_string opts.since_time)
    else if str_eq "timeout" key
    then some (to_string (timeout_of opts.timeout_seconds))
    else if str_eq "category" key
    then some category
    else none

-- What a network has performed behind `n`: one request to `url` without a body.
abbrev pub Sent : Text → Network → Network → Type 0
Sent url n m =
    (r : Request) × (m.performed ≡ n.performed ++ r ∷ []) × (r.url ≡ c_str url) × (r.body ≡ no_body)

lookup-poll_params-token :
    (category : Text) (timeout since : ℤ)
    → lookup "api_token" (poll_params category timeout since) ≡ none
lookup-poll_params-token category timeout since = elim (Bool-cases (ltb_ℤ (pos 0) since)) [
  | inl h ↦ lookup-poll_params category timeout since "api_token" ∙ rw h refl
  | inr h ↦ lookup-poll_params category timeout since "api_token" ∙ rw h refl
]

lookup-first_param :
    (token category : Text) (opts : LongpollOptions) (key : String)
    → lookup key (
        inject_token token (poll_params category (timeout_of opts.timeout_seconds) opts.since_time))
      ≡ first_param token category opts key
lookup-first_param token category opts key =
    let params = poll_params category (timeout_of opts.timeout_seconds) opts.since_time in
    lookup-inject_token token params key
    ∙ rw
        (
          lookup-poll_params-token category (timeout_of opts.timeout_seconds) opts.since_time,
          lookup-poll_params category (timeout_of opts.timeout_seconds) opts.since_time key,
        )
        (ground arith)

module _ (P : Platform) (C : Curl) where
  open P use {Double}

  answered-network :
      (failure : Text) (p : Poll Double) (r : Result (HttpResponse Double) × Network)
      → (answered P C failure p r).1 ≡ r.1
  answered-network failure p (r, n) = refl

  get-Sent :
      (http : HttpClient) (url : Text) (params : Dict Text) (n : Network)
      → (n.answers n.asked).easy_init ≡ true
      → Sent
          (with_query P C url (build_query C [] (inject_token http.api_token params)))
          n
          (get P C http url params n).1
  unfolding get perform
  get-Sent http url params n handled = elim (Bool-cases (is_ok (n.answers n.asked).code)) [
    | inl k ↦ rw (handled, k) (_, refl, refl, refl)
    | inr k ↦ rw (handled, k) (_, refl, refl, refl)
  ]

  -- The first round of the worker of a started subscription, where a handle is made, performs one request to
  -- the endpoint of the long polls. Its query is built of the category, a timeout that is positive whatever
  -- the options say, the time to resume from where it is positive, and the token of the client unless it is
  -- empty, and of no other key.
  pub round-start_longpoll :
      (c : AudD) (category failure : Text) (opts : LongpollOptions) (n : Network)
      → (n.answers n.asked).easy_init ≡ true
      → let s : Subscription Double = start_longpoll category opts in
        (sent : Dict Text) × Sent
          (with_query P C (api_base ++ utf8 "/longpoll/") (build_query C [] sent))
          n
          (round P C c s.category s.timeout failure (s.poll, n)).1
        × ((key : String)
            → lookup key sent ≡ first_param c.standard_http.api_token category opts key)
        × (ltb_ℤ (pos 0) (timeout_of opts.timeout_seconds) ≡ true)
  unfolding start_longpoll start round test request
  round-start_longpoll c category failure opts n handled =
      let params = poll_params category (timeout_of opts.timeout_seconds) opts.since_time in
      let s : Subscription Double = start_longpoll category opts in
      (
        inject_token c.standard_http.api_token params,
        rw
            (answered-network failure (test s.poll)
              (get P C c.standard_http (api_base ++ utf8 "/longpoll/") params n))
            (get-Sent c.standard_http (api_base ++ utf8 "/longpoll/") params n handled),
        λ key. lookup-first_param c.standard_http.api_token category opts key,
        timeout_of-positive opts.timeout_seconds,
      )
