-- ===== src/Longpoll/Threads/Consistent/Rounds.antt =====
-- The steps of the worker of src/longpoll.cpp keep the threads consistent.
use mathlib.Core.Path.{subst}
use audd_cpp.Prelude.{
  suc, ◌≤◌, ◌≡◌, refl, ap, ◌∙◌, ◌⊎◌, inl, inr, Bool, true, false, List, [], ◌∷◌, ◌++◌, length,
  length-append, arith, if_lem, Bool-cases,
}
use audd_cpp.Prelude.Text.{Text}
use audd_cpp.Platform.{Platform}
use audd_cpp.Error.{Exception, Result, ok, err}
use audd_cpp.Http.{HttpResponse}
use audd_cpp.Callback.{CallbackEvent, matched, notified}
use audd_cpp.Longpoll.{LongpollDisposition, terminal, keep_alive, event, skip, is_connection}
use audd_cpp.Longpoll.Queue.{DemuxQueue, push}
use audd_cpp.Longpoll.Threads.State.{Worker, Main, System, accept}
use audd_cpp.Longpoll.Threads.Piped.{push-closed, IsTracked, push-IsPiped, push-IsTracked}
use audd_cpp.Longpoll.Threads.Flags.{
  Flags, main-close_line, closer-close_line, flags, worker_reached, line-IsFlagged,
  after_close-reached,
}
use audd_cpp.Longpoll.Threads.{after_close, received, parsed, handle, work}
use audd_cpp.Longpoll.Threads.Consistent.{
  in_main, raised, IsSettled, IsConsistent, moves, line_placed, raised-after_close,
}

pub closed-push : {T : Type 0} (v : T) (d : DemuxQueue T) → (push v d).closed ≡ d.closed
unfolding push
closed-push v d = ground arith

accept-length :
    {T : Type 0} (b : Bool) (v : T) (vs : List T) → length (accept b v vs) ≤ suc (length vs)
accept-length true v vs = omega arith
accept-length false v vs = omega (arith, length-append vs (v ∷ []))

-- An error that comes behind the loop over the errors meets a closed queue.
push-settled :
    (e : Exception) (d : DemuxQueue Exception) (hand accepted reported : List Exception)
    → IsTracked d hand accepted reported
    → length accepted ≡ 0
    → (d.q ≡ []) × ((d.closed ≡ true) ⊎ (1 ≤ length reported))
    → ((push e d).q ≡ []) × (((push e d).closed ≡ true) ⊎ (1 ≤ length reported))
push-settled e d hand accepted reported t none_yet (empty, inl shut) =
    (ap (λ d. d.q) (push-closed e d shut) ∙ empty, inl (closed-push e d ∙ shut))
push-settled e d hand accepted reported t none_yet (empty, inr some_yet) = absurd (
    omega (
      arith,
      ap length t,
      none_yet,
      some_yet,
      length-append (reported ++ hand) d.q,
      length-append reported hand,
    ))

push-IsSettled :
    (m : Main) (e : Exception) (d : DemuxQueue Exception) (accepted reported : List Exception)
    → IsTracked d (in_main m) accepted reported
    → length accepted ≡ 0
    → IsSettled m d reported
    → IsSettled m (push e d) reported
push-IsSettled Main.pulling e d accepted reported t none_yet h = tt
push-IsSettled (Main.holding x) e d accepted reported t none_yet h = tt
push-IsSettled (Main.closing stage) e d accepted reported t none_yet h =
    push-settled e d [] accepted reported t none_yet h
push-IsSettled Main.joining e d accepted reported t none_yet h =
    push-settled e d [] accepted reported t none_yet h
push-IsSettled Main.done e d accepted reported t none_yet h =
    push-settled e d [] accepted reported t none_yet h

module _ (P : Platform) where
  open P use {Double}

  received-reached :
      (r : Result (HttpResponse Double)) (f : Flags) → worker_reached (received P r) f ≡ true
  received-reached (ok resp) f = refl
  received-reached (err e) f = elim (Bool-cases (is_connection P e)) [
    | inl h ↦ rw h refl
    | inr h ↦ rw h refl
  ]

  parsed-reached :
      (resp : HttpResponse Double) (r : Result (CallbackEvent Double)) (f : Flags)
      → worker_reached (parsed P resp r) f ≡ true
  parsed-reached resp (ok ev) f = refl
  parsed-reached resp (err e) f = refl

  handle-IsConsistent :
      (failure : Text) (resp : HttpResponse Double) (d : LongpollDisposition) (s : System Double)
      → raised s.worker ≡ 0
      → IsConsistent s
      → IsConsistent (handle P failure resp d s)
  unfolding handle
  handle-IsConsistent failure resp terminal s e c =
      moves s _ s.backoff s.cur_since e refl c.low c.high c
  handle-IsConsistent failure resp skip s e c =
      moves s _ s.backoff s.cur_since e refl c.low c.high c
  handle-IsConsistent failure resp keep_alive s e c = moves s _ s.backoff _ e refl c.low c.high c
  handle-IsConsistent failure resp event s e c =
      moves s _ s.backoff s.cur_since e (parsed-reached resp _ (flags s)) c.low c.high c

  stored-IsConsistent :
      (ev : CallbackEvent Double) (failure : Text) (r : Result (HttpResponse Double))
      (resp : HttpResponse Double) (s : System Double)
      → raised s.worker ≡ 0
      → IsConsistent s
      → IsConsistent (work P failure r (Worker.storing resp ev) s)
  unfolding work
  stored-IsConsistent (matched m) failure r resp s e c =
      let shut = closed-push m s.matches in
      record {
        flagged = (rw shut c.flagged.0, rw shut c.flagged.1, refl, rw shut c.flagged.3);
        matches =
            push-IsPiped m s.matches s.match_pump s.accepted_matches s.delivered_matches c.matches;
        notifications = c.notifications;
        errors = c.errors;
        few = omega (arith, c.few, e);
        settled = c.settled;
        joined = c.joined;
        low = c.low;
        high = c.high;
      }
  stored-IsConsistent (notified n) failure r resp s e c =
      let shut = closed-push n s.notifications in
      record {
        flagged = (rw shut c.flagged.0, rw shut c.flagged.1, refl, rw shut c.flagged.3);
        matches = c.matches;
        notifications =
            push-IsPiped n s.notifications s.notification_pump s.accepted_notifications
              s.delivered_notifications c.notifications;
        errors = c.errors;
        few = omega (arith, c.few, e);
        settled = c.settled;
        joined = c.joined;
        low = c.low;
        high = c.high;
      }

  pub work-IsConsistent :
      (failure : Text) (r : Result (HttpResponse Double)) (w : Worker Double) (s : System Double)
      → s.worker ≡ w
      → IsConsistent s
      → IsConsistent (work P failure r w s)
  unfolding work
  work-IsConsistent failure r Worker.testing s e c =
      moves s _ s.backoff s.cur_since (ap raised e)
        (if_lem {A = Worker Double} (λ w. worker_reached w (flags s) ≡ true) s.closed
          {x = Worker.returned} {y = Worker.requesting} (λ shut. shut) (λ opened. refl))
        c.low c.high c
  work-IsConsistent failure r Worker.requesting s e c =
      moves s (received P r) s.backoff s.cur_since (ap raised e) (received-reached r (flags s))
        c.low c.high c
  work-IsConsistent failure r Worker.sleeping s e c =
      if_lem IsConsistent s.closed
        (λ shut. moves s Worker.returned s.backoff s.cur_since (ap raised e) shut c.low c.high c)
        (λ opened.
          moves s Worker.testing _ s.cur_since (ap raised e) refl (omega (arith, c.low))
            (omega arith) c)
  work-IsConsistent failure r (Worker.arrived resp) s e c =
      if_lem IsConsistent s.closed
        (λ shut. moves s Worker.returned s.backoff s.cur_since (ap raised e) shut c.low c.high c)
        (λ opened.
          moves s (Worker.handling resp) 500 s.cur_since (ap raised e) refl (omega arith)
            (omega arith) c)
  work-IsConsistent failure r (Worker.handling resp) s e c =
      handle-IsConsistent failure resp _ s (ap raised e) c
  work-IsConsistent failure r (Worker.storing resp ev) s e c =
      stored-IsConsistent ev failure r resp s (ap raised e) c
  work-IsConsistent failure r (Worker.failing x) s e c =
      let shut = closed-push x s.errors in
      record {
        flagged = (rw shut c.flagged.0, rw shut c.flagged.1, refl, rw shut c.flagged.3);
        matches = c.matches;
        notifications = c.notifications;
        errors = push-IsTracked x s.errors (in_main s.main) s.accepted_errors s.reported c.errors;
        few = omega (arith, c.few, ap raised e, accept-length s.errors.closed x s.accepted_errors);
        settled =
            push-IsSettled s.main x s.errors s.accepted_errors s.reported c.errors
              (omega (arith, c.few, ap raised e)) c.settled;
        joined = c.joined;
        low = c.low;
        high = c.high;
      }
  work-IsConsistent failure r (Worker.closing stage) s e c =
      let reach = subst (λ w. worker_reached w (flags s) ≡ true) e c.flagged.2 in
      let f = line-IsFlagged stage (flags s) s.closer s.worker s.main reach c.flagged in
      rw (main-close_line stage s, closer-close_line stage s)
        (line_placed stage s s.closer (after_close stage) s.main reach
          (f.0, f.1, after_close-reached Double stage (flags s) c.flagged.0 reach, f.3)
          (rw (raised-after_close Double stage, e) (omega arith)) refl c.settled c.joined c)
  work-IsConsistent failure r Worker.returned s e c = c
