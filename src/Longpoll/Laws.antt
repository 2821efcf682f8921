-- ===== src/Longpoll/Laws.antt =====
-- What one round of the worker of src/longpoll.cpp does to an open poll.
use native.Mathlib.Nat.{mul_assoc, mul-le-mul_left}
use audd_cpp.Prelude.{
  ℕ, zero, suc, ◌*◌, ◌^◌, ◌≤◌, ◌≡◌, ◌≢◌, refl, ap, ◌∙◌, Bool, true, false, List, [], ◌∷◌, ◌++◌, min,
  arith, leb, if◌then◌else◌, Bool-cases, inl, inr,
}
use audd_cpp.Prelude.Int.{ℤ, pos, ltb_ℤ}
use audd_cpp.Prelude.Text.{Text, is_empty}
use audd_cpp.Json.{Json, find}
use audd_cpp.Parse.Songs.{StreamCallbackMatch}
use audd_cpp.Recognition.{has_value}
use audd_cpp.Platform.{Platform}
use audd_cpp.Error.{Exception, Result, ok, err, audd, connection_error}
use audd_cpp.Http.{HttpResponse}
use audd_cpp.Callback.{CallbackEvent, parse_callback, matched, notified}
use audd_cpp.Longpoll.Queue.{push}
use audd_cpp.Longpoll.{
  Poll, Phase, LongpollDisposition, backoff_cap, test, wake, deliver, deliver_event, dispatch,
  respond, receive, classify_longpoll_response,
}

module _ (P : Platform) where
  open P use {Double}

  -- A round in which the request fails with a connection error, and the sleep behind it.
  abbrev pub blip : Exception → Poll Double → Poll Double
  blip e p = wake (receive P [] (err e) (test p))

  abbrev pub blips : List Text → Poll Double → Poll Double
  blips [] p = p
  blips (what ∷ later) p = blips later (blip (audd (connection_error what true)) p)

  abbrev pub count : List Text → ℕ
  count [] = 0
  count (what ∷ later) = suc (count later)

  pow_pos : (k : ℕ) → 1 ≤ 2 ^ k
  pow_pos zero = omega arith
  pow_pos (suc k) = omega (arith, pow_pos k)

  pow_suc : (k : ℕ) → 2 ^ suc k ≡ 2 * 2 ^ k
  pow_suc k = omega arith

  capped : (b x y : ℕ) → 1 ≤ x → y ≡ 2 * x → min (min (b * 2) 30000 * x) 30000 ≡ min (b * y) 30000
  capped b x y h e = elim (Bool-cases (leb (b * 2) 30000)) [
    | inl fits ↦
        let small : b * 2 ≤ 30000 = ground (arith, fits) in
        let m : min (b * 2) 30000 ≡ b * 2 = omega (arith, small) in
        rw (m, e) (ap (λ n. min n 30000) (mul_assoc b 2 x))
    | inr over ↦
        let large : 30000 ≤ b * 2 = ground (arith, over) in
        let m : min (b * 2) 30000 ≡ 30000 = omega (arith, large) in
        let all : b * 2 * 1 ≤ b * 2 * x = mul-le-mul_left (b * 2) h in
        let same : b * 2 * x ≡ b * (2 * x) = mul_assoc b 2 x in
        rw (m, e) (omega (arith, all, same, large, h))
  ]

  -- Connection errors alone, however many in a row, never end an open subscription: the worker is back at the
  -- test of its loop with the queues and the cursor as they were, and the backoff has doubled each time, up
  -- to 30 seconds.
  pub blips_lem :
      (whats : List Text) (p : Poll Double) (b : ℕ)
      → b ≤ 30000
      → blips whats (record p { closed = false; phase = Phase.testing; backoff = b }) ≡ record p {
        closed = false;
        phase = Phase.testing;
        backoff = min (b * 2 ^ count whats) 30000;
      }
  unfolding test receive wake connection_error
  blips_lem [] p b small =
      ap (λ n. record p { closed = false; phase = Phase.testing; backoff = n }) (omega arith)
  blips_lem (what ∷ later) p b small =
      blips_lem later p (min (b * 2) backoff_cap) (omega arith)
      ∙ ap (λ n. record p { closed = false; phase = Phase.testing; backoff = n })
          (capped b (2 ^ count later) (2 ^ count (what ∷ later)) (pow_pos (count later))
            (pow_suc (count later)))

  deliver_event-survives :
      (since : ℤ) (r : Result (CallbackEvent Double)) (p : Poll Double)
      → let q = deliver_event P since r p in
        (q.phase ≡ p.phase)
        × (q.closed ≡ p.closed)
        × (q.errors ≡ p.errors)
        × (q.backoff ≡ p.backoff)
  unfolding deliver_event
  deliver_event-survives since (err e) p = (refl, refl, refl, refl)
  deliver_event-survives since (ok (matched m)) p = (refl, refl, refl, refl)
  deliver_event-survives since (ok (notified n)) p = (refl, refl, refl, refl)

  dispatch-survives :
      (failure : Text) (resp : HttpResponse Double) (p : Poll Double) (d : LongpollDisposition)
      → d ≢ LongpollDisposition.terminal
      → let q = dispatch P failure resp p d in
        (q.phase ≡ p.phase)
        × (q.closed ≡ p.closed)
        × (q.errors ≡ p.errors)
        × (q.backoff ≡ p.backoff)
  unfolding dispatch deliver
  dispatch-survives failure resp p LongpollDisposition.terminal h = absurd (h refl)
  dispatch-survives failure resp p LongpollDisposition.skip h = (refl, refl, refl, refl)
  dispatch-survives failure resp p LongpollDisposition.keep_alive h = (refl, refl, refl, refl)
  dispatch-survives failure resp p LongpollDisposition.event h = deliver_event-survives _ _ p

  low_dispositions :
      (b c : Bool)
      → (if b
          then LongpollDisposition.skip
          else if c
          then LongpollDisposition.keep_alive
          else LongpollDisposition.event)
        ≢ LongpollDisposition.terminal
  low_dispositions true c e = ground (arith, e)
  low_dispositions false true e = ground (arith, e)
  low_dispositions false false e = ground (arith, e)

  classify-low :
      (status : ℤ) (body : Json Double) (nothing : Bool)
      → ltb_ℤ status (pos 400) ≡ true
      → classify_longpoll_response P status body nothing ≢ LongpollDisposition.terminal
  unfolding classify_longpoll_response
  classify-low status body nothing low = rw low (low_dispositions nothing _)

  -- Any other answer, whatever its body, leaves an open subscription open: the worker is back at the test of
  -- its loop, no error was queued, and the backoff is reset.
  pub respond-survives :
      (failure : Text) (resp : HttpResponse Double) (p : Poll Double)
      → p.closed ≡ false
      → ltb_ℤ resp.http_status (pos 400) ≡ true
      → let q = respond P failure resp p in
        (q.phase ≡ Phase.testing) × (q.closed ≡ false) × (q.errors ≡ p.errors) × (q.backoff ≡ 500)
  unfolding respond
  respond-survives failure resp p opened low = rw opened (
      dispatch-survives failure resp
        (record p { phase = Phase.testing; closed = false; backoff = 500 })
        (classify_longpoll_response P resp.http_status resp.json_body (is_empty resp.raw_body))
        (classify-low resp.http_status resp.json_body (is_empty resp.raw_body) low))

  -- A match reaches the caller: where the poll and its queue of matches are open, the status is below 400, the
  -- body is not empty, has no `timeout` and parses to a match, the match is queued behind those that wait.
  pub respond-matched :
      (failure : Text) (resp : HttpResponse Double) (p : Poll Double)
      (m : StreamCallbackMatch Double)
      → p.closed ≡ false
      → p.matches.closed ≡ false
      → ltb_ℤ resp.http_status (pos 400) ≡ true
      → is_empty resp.raw_body ≡ false
      → has_value (find resp.json_body "timeout") ≡ false
      → parse_callback P failure resp.raw_body ≡ ok (matched m)
      → (respond P failure resp p).matches.q ≡ p.matches.q ++ m ∷ []
  unfolding respond classify_longpoll_response dispatch deliver deliver_event push
  respond-matched failure resp p m opened room low body quiet parsed =
      rw (opened, low, body, quiet, parsed, room) refl
