-- ===== src/Longpoll/Threads/Rise.antt =====
-- No step of the threads of src/longpoll.cpp reopens what `close_all` has closed.
use audd_cpp.Prelude.{
  ℕ, ◌+◌, ◌-◌, ◌≤◌, ◌≡◌, refl, ap, ◌∙◌, ◌⊎◌, inl, inr, true, List, [], ◌∷◌, arith, if_lem,
}
use audd_cpp.Prelude.Text.{Text}
use audd_cpp.Platform.{Platform}
use audd_cpp.Error.{Result}
use audd_cpp.Http.{HttpResponse}
use audd_cpp.Callback.{matched, notified}
use audd_cpp.Parse.Songs.{StreamCallbackMatch, StreamCallbackNotification}
use audd_cpp.Longpoll.{LongpollDisposition, terminal, keep_alive, event, skip}
use audd_cpp.Longpoll.Threads.State.{Stage, Worker, Pump, Main, System}
use audd_cpp.Longpoll.Threads.Flags.{flags, line, reached, reached-line, flags-close_line}
use audd_cpp.Longpoll.Threads.Consistent.Rounds.{closed-push}
use audd_cpp.Longpoll.Threads.Consistent.Pumps.{closed-pull}
use audd_cpp.Longpoll.Threads.{
  close_line, close_step, match_step, notification_step, main_step, handle, work, Action, works,
  closes, match_pumps, notification_pumps, main_runs, act, schedule,
}

-- The flags after a step: as they were, or with one line of `close_all`.
abbrev pub Rises : {D : Type 0} → System D → System D → Type 0
Rises s t = (flags t ≡ flags s) ⊎ ((stage : Stage) × (flags t ≡ line stage (flags s)))

module _ {D : Type 0} where
  Rises-reached :
      (s t : System D) (stage : Stage)
      → Rises s t
      → reached stage (flags s) ≡ true
      → reached stage (flags t) ≡ true
  Rises-reached s t stage (inl e) r = ap (λ f. reached stage f) e ∙ r
  Rises-reached s t stage (inr (other, e)) r =
      ap (λ f. reached stage f) e ∙ reached-line other stage (flags s) r

  close_line-Rises : (stage : Stage) (s : System D) → Rises s (close_line stage s)
  close_line-Rises stage s = inr (stage, flags-close_line stage s)

  match_step-Rises : (p : Pump (StreamCallbackMatch D)) (s : System D) → Rises s (match_step p s)
  unfolding match_step
  match_step-Rises Pump.pulling s =
      inl (ap (λ b. record (flags s) { matches = b }) (closed-pull s.matches))
  match_step-Rises (Pump.holding m) s = inl refl
  match_step-Rises Pump.over s = inl refl

  notification_step-Rises :
      (p : Pump (StreamCallbackNotification D)) (s : System D) → Rises s (notification_step p s)
  unfolding notification_step
  notification_step-Rises Pump.pulling s =
      inl (ap (λ b. record (flags s) { notifications = b }) (closed-pull s.notifications))
  notification_step-Rises (Pump.holding n) s = inl refl
  notification_step-Rises Pump.over s = inl refl

  main_step-Rises : (m : Main) (s : System D) → Rises s (main_step m s)
  unfolding main_step
  main_step-Rises Main.pulling s =
      inl (ap (λ b. record (flags s) { errors = b }) (closed-pull s.errors))
  main_step-Rises (Main.holding e) s = inl refl
  main_step-Rises (Main.closing stage) s = close_line-Rises stage s
  main_step-Rises Main.joining s = inl refl
  main_step-Rises Main.done s = inl refl

module _ (P : Platform) where
  open P use {Double}

  handle-Rises :
      (failure : Text) (resp : HttpResponse Double) (d : LongpollDisposition) (s : System Double)
      → Rises s (handle P failure resp d s)
  unfolding handle
  handle-Rises failure resp terminal s = inl refl
  handle-Rises failure resp skip s = inl refl
  handle-Rises failure resp keep_alive s = inl refl
  handle-Rises failure resp event s = inl refl

  work-Rises :
      (failure : Text) (r : Result (HttpResponse Double)) (w : Worker Double) (s : System Double)
      → Rises s (work P failure r w s)
  unfolding work
  work-Rises failure r Worker.testing s = inl refl
  work-Rises failure r Worker.requesting s = inl refl
  work-Rises failure r Worker.sleeping s =
      if_lem (Rises s) s.closed (λ shut. inl refl) (λ opened. inl refl)
  work-Rises failure r (Worker.arrived resp) s =
      if_lem (Rises s) s.closed (λ shut. inl refl) (λ opened. inl refl)
  work-Rises failure r (Worker.handling resp) s = handle-Rises failure resp _ s
  work-Rises failure r (Worker.storing resp (matched m)) s =
      inl (ap (λ b. record (flags s) { matches = b }) (closed-push m s.matches))
  work-Rises failure r (Worker.storing resp (notified n)) s =
      inl (ap (λ b. record (flags s) { notifications = b }) (closed-push n s.notifications))
  work-Rises failure r (Worker.failing e) s =
      inl (ap (λ b. record (flags s) { errors = b }) (closed-push e s.errors))
  work-Rises failure r (Worker.closing stage) s = close_line-Rises stage s
  work-Rises failure r Worker.returned s = inl refl

  act-Rises : (a : Action P) (s : System Double) → Rises s (act P a s)
  unfolding act close_step
  act-Rises (works failure r) s = work-Rises failure r s.worker s
  act-Rises (closes i) s = close_line-Rises (s.closer i) s
  act-Rises match_pumps s = match_step-Rises s.match_pump s
  act-Rises notification_pumps s = notification_step-Rises s.notification_pump s
  act-Rises main_runs s = main_step-Rises s.main s

  -- What a thread has closed stays closed.
  pub act-reached :
      (stage : Stage) (a : Action P) (s : System Double)
      → reached stage (flags s) ≡ true
      → reached stage (flags (act P a s)) ≡ true
  act-reached stage a s = Rises-reached s (act P a s) stage (act-Rises a s)

  pub schedule-reached :
      (stage : Stage) (actions : List (Action P)) (s : System Double)
      → reached stage (flags s) ≡ true
      → reached stage (flags (schedule P actions s)) ≡ true
  unfolding schedule
  schedule-reached stage [] s r = r
  schedule-reached stage (a ∷ later) s r =
      schedule-reached stage later (act P a s) (act-reached stage a s r)

  -- The steps of one thread in a schedule, `mine` being 1 at each of them.
  abbrev pub turns : (Action P → ℕ) → List (Action P) → ℕ
  turns mine [] = 0
  turns mine (a ∷ later) = mine a + turns mine later

  -- A rank that falls with each step of one thread, and with no step rises, ends at zero where the thread
  -- has as many steps.
  pub schedule-falls :
      (rank : System Double → ℕ) (mine : Action P → ℕ) (stage : Stage)
      → ((a : Action P) (s : System Double)
          → reached stage (flags s) ≡ true
          → rank (act P a s) ≤ rank s - mine a)
      → (actions : List (Action P)) (s : System Double) → reached stage (flags s) ≡ true
      → rank (schedule P actions s) ≤ rank s - turns mine actions
  unfolding schedule
  schedule-falls rank mine stage fall [] s r = omega arith
  schedule-falls rank mine stage fall (a ∷ later) s r =
      let rest = schedule-falls rank mine stage fall later (act P a s) (act-reached stage a s r) in
      omega (arith, rest, fall a s r)
