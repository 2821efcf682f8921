-- ===== src/Longpoll/Rounds/Event.antt =====
-- An event reaches the queue of the worker of src/longpoll.cpp, however many connection errors come first.
use mathlib.Core.Path.{subst}
use audd_cpp.Prelude.{
  ℕ, zero, suc, ◌+◌, ◌*◌, ◌≡◌, refl, sym, ap, ◌∙◌, true, false, ◌&&◌, [], ◌∷◌, ◌++◌, min,
  Bool-cases, inl, inr, arith,
}
use audd_cpp.Prelude.Int.{ℤ, pos, ltb_ℤ}
use audd_cpp.Prelude.Text.{Text, is_empty}
use audd_cpp.Platform.{Platform}
use audd_cpp.Json.{find}
use audd_cpp.Recognition.{has_value}
use audd_cpp.Error.{Result, ok, connection_error}
use audd_cpp.Http.{HttpResponse, Network, response_of}
use audd_cpp.Http.Transport.{Curl, Transfer, is_ok}
use audd_cpp.Parse.Songs.{StreamCallbackMatch}
use audd_cpp.Callback.{parse_callback, matched}
use audd_cpp.Client.{AudD}
use audd_cpp.Longpoll.{Poll, Phase, test, wake, receive, poll_params, backoff_cap, respond}
use audd_cpp.Longpoll.Laws.{respond-matched, respond-survives}
use audd_cpp.Longpoll.Rounds.{
  request, rest, round, rounds, is_blip, all_blips, get_end, get-end, both,
}

module _ (P : Platform) (C : Curl) where
  open P use {Double}

  module _ (c : AudD) (category : Text) (timeout : ℤ) (failure : Text) where
    abbrev asks : Poll Double → Network → Result (HttpResponse Double) × Network
    asks p n = request P C c category timeout p.cur_since n

    asks-end :
        (p : Poll Double) (n : Network)
        → let (r, m) = asks p n in
          (r ≡ get_end P C (n.answers n.asked)) × (m.answers ≡ n.answers) × (m.asked ≡ suc n.asked)
    unfolding request
    asks-end p n = get-end P C c.standard_http _ (poll_params category timeout p.cur_since) n

    round_open :
        (p : Poll Double) (b : ℕ) (n : Network)
        → round P C c category timeout failure
            (record p { closed = false; phase = Phase.testing; backoff = b }, n)
          ≡ (
            rest P C (
                receive P failure
                  (get_end P C (n.answers n.asked))
                  (record p { closed = false; phase = Phase.requesting; backoff = b })),
            (asks p n).1,
          )
    unfolding round test
    round_open p b n =
        ap
          (λ r. (
            rest P C (
                receive P failure r
                  (record p { closed = false; phase = Phase.requesting; backoff = b })),
            (asks p n).1,
          ))
          (asks-end p n).0

    round_blip :
        (p : Poll Double) (b : ℕ) (t : Transfer)
        → is_blip P C t ≡ true
        → rest P C (
            receive P failure
              (get_end P C t)
              (record p { closed = false; phase = Phase.requesting; backoff = b }))
          ≡ record p { closed = false; phase = Phase.testing; backoff = min (b * 2) backoff_cap }
    unfolding receive wake connection_error
    round_blip p b t blip = elim (Bool-cases t.easy_init) [
      | inr e ↦ rw e refl
      | inl e ↦ elim (Bool-cases (is_ok t.code)) [
        | inl k ↦ absurd (ground (arith, blip, e, k))
        | inr k ↦ rw (e, k) refl
      ]
    ]

    abbrev opened : Poll Double → ℕ → Poll Double
    opened p b = record p { closed = false; phase = Phase.testing; backoff = b }

    -- What is left of the subscription behind its round with the event.
    abbrev pub HasMatch :
        Poll Double → StreamCallbackMatch Double → Poll Double × Network → ℕ → Type 0
    HasMatch p m s asked =
        (s.0.matches.q ≡ p.matches.q ++ m ∷ [])
        × (s.0.closed ≡ false)
        × (s.0.phase ≡ Phase.testing)
        × (s.1.asked ≡ asked)

    rest_testing : (p : Poll Double) → p.phase ≡ Phase.testing → rest P C p ≡ p
    rest_testing p e = rw e refl

    round_event :
        (p : Poll Double) (b : ℕ) (t : Transfer) (m : StreamCallbackMatch Double)
        → p.matches.closed ≡ false
        → (t.easy_init && is_ok t.code) ≡ true
        → ltb_ℤ (response_of P C t).http_status (pos 400) ≡ true
        → is_empty (response_of P C t).raw_body ≡ false
        → has_value (find (response_of P C t).json_body "timeout") ≡ false
        → parse_callback P failure (response_of P C t).raw_body ≡ ok (matched m)
        → let q = rest P C (
            receive P failure
              (get_end P C t)
              (record p { closed = false; phase = Phase.requesting; backoff = b })) in
          (q.matches.q ≡ p.matches.q ++ m ∷ []) × (q.closed ≡ false) × (q.phase ≡ Phase.testing)
    unfolding receive
    round_event p b t m room came low body quiet parsed =
        let s = record p { closed = false; phase = Phase.requesting; backoff = b } in
        let resp = response_of P C t in
        let queued = respond-matched P failure resp s m refl room low body quiet parsed in
        let on = respond-survives P failure resp s refl low in
        rw (came, rest_testing (respond P failure resp s) on.0) (queued, on.1, on.0)

    from_asked :
        (k : ℕ) (p : Poll Double) (b : ℕ) (n : Network) (t : Transfer)
        (m : StreamCallbackMatch Double)
        → all_blips P C n.answers n.asked k ≡ true
        → n.answers (n.asked + k) ≡ t
        → p.matches.closed ≡ false
        → (t.easy_init && is_ok t.code) ≡ true
        → ltb_ℤ (response_of P C t).http_status (pos 400) ≡ true
        → is_empty (response_of P C t).raw_body ≡ false
        → has_value (find (response_of P C t).json_body "timeout") ≡ false
        → parse_callback P failure (response_of P C t).raw_body ≡ ok (matched m)
        → HasMatch p m
            (rounds P C c category timeout failure (suc k) (opened p b, n))
            (n.asked + suc k)
    from_asked zero p b n t m blips at room came low body quiet parsed =
        let r = asks p n in
        let here : n.answers n.asked ≡ t = ap n.answers (omega arith) ∙ at in
        let e = round_event p b t m room came low body quiet parsed in
        let step =
          round_open p b n
          ∙ ap
              (λ t. (
                rest P C (
                    receive P failure (get_end P C t)
                      (record p { closed = false; phase = Phase.requesting; backoff = b })),
                r.1,
              ))
              here in
        subst (λ s. HasMatch p m s (n.asked + 1)) (sym step)
          (e.0, e.1, e.2, omega (arith, (asks-end p n).2))
    from_asked (suc k) p b n t m blips at room came low body quiet parsed =
        let next = (asks p n).1 in
        let a = asks-end p n in
        let b' = min (b * 2) backoff_cap in
        let split = both P C (is_blip P C (n.answers n.asked)) _ blips in
        let later : all_blips P C next.answers next.asked k ≡ true =
          ap (λ answers. all_blips P C answers next.asked k) a.1
          ∙ ap (λ asked. all_blips P C n.answers asked k) a.2
          ∙ split.1 in
        let there : next.answers (next.asked + k) ≡ t =
          ap (λ answers. answers (next.asked + k)) a.1 ∙ ap n.answers (omega (arith, a.2)) ∙ at in
        let ih = from_asked k p b' next t m later there room came low body quiet parsed in
        let step : round P C c category timeout failure (opened p b, n) ≡ (opened p b', next) =
          round_open p b n ∙ ap (λ q. (q, next)) (round_blip p b (n.answers n.asked) split.0) in
        subst
          (λ s.
            HasMatch p m (rounds P C c category timeout failure (suc k) s) (n.asked + suc (suc k)))
          (sym step) (ih.0, ih.1, ih.2, omega (arith, ih.3, a.2))

    -- Connection errors only delay an event: where the poll and its queue of matches are open and `k` requests
    -- fail, each with a connection error, before one brings a match with a status below 400 and without a
    -- `timeout`, then behind `k + 1` rounds and as many requests the match is queued behind those that wait,
    -- and the worker is at the test of its loop with the poll open.
    pub rounds-HasMatch :
        (k : ℕ) (p : Poll Double) (n : Network) (t : Transfer) (m : StreamCallbackMatch Double)
        → p.closed ≡ false
        → p.phase ≡ Phase.testing
        → p.matches.closed ≡ false
        → all_blips P C n.answers n.asked k ≡ true
        → n.answers (n.asked + k) ≡ t
        → (t.easy_init && is_ok t.code) ≡ true
        → ltb_ℤ (response_of P C t).http_status (pos 400) ≡ true
        → is_empty (response_of P C t).raw_body ≡ false
        → has_value (find (response_of P C t).json_body "timeout") ≡ false
        → parse_callback P failure (response_of P C t).raw_body ≡ ok (matched m)
        → HasMatch p m (rounds P C c category timeout failure (suc k) (p, n)) (n.asked + suc k)
    rounds-HasMatch k p n t m is_open at_test room blips at came low body quiet parsed =
        let same : opened p p.backoff ≡ p =
          ap (λ b. record p { closed = b; phase = Phase.testing }) (sym is_open)
          ∙ ap (λ f. record p { phase = f }) (sym at_test) in
        subst
          (λ q.
            HasMatch p m (rounds P C c category timeout failure (suc k) (q, n)) (n.asked + suc k))
          same (from_asked k p p.backoff n t m blips at room came low body quiet parsed)
