-- ===== src/Longpoll/Threads/Consistent/Caller.antt =====
-- The thread that called `run` of src/longpoll.cpp keeps the threads consistent.
use mathlib.Core.Path.{subst}
use audd_cpp.Prelude.{
  ◌≤◌, ◌≡◌, refl, ap, inl, inr, Bool, true, false, List, [], ◌∷◌, ◌++◌, length, length-append,
  arith,
}
use audd_cpp.Error.{Exception}
use audd_cpp.Longpoll.Queue.{DemuxQueue, pull, Pulled, value, ended, waiting}
use audd_cpp.Longpoll.Threads.State.{Worker, Pump, Main, System, joins, caught, joined}
use audd_cpp.Longpoll.Threads.Piped.{next_in_hand, IsTracked, give-IsTracked}
use audd_cpp.Longpoll.Threads.Flags.{
  Flags, worker-close_line, closer-close_line, flags, main_reached, line-IsFlagged, joins-reached,
}
use audd_cpp.Longpoll.Threads.{main_step}
use audd_cpp.Longpoll.Threads.Consistent.{
  in_main, raised, IsSettled, IsJoined, IsConsistent, line_placed, joins-IsSettled, joins-IsJoined,
  in_main-joins,
}

-- An error that is pulled is in hand, and the end of a closed queue leaves the loop.
pull_parts-kept :
    (q : List Exception) (shut : Bool) (f : Flags) (accepted reported : List Exception)
    → let d : DemuxQueue Exception = record { q = q; closed = shut } in
      IsTracked d [] accepted reported
      → IsTracked (pull d).1 (in_main (caught (pull d).0)) accepted reported
        × IsSettled (caught (pull d).0) (pull d).1 reported
        × (main_reached (caught (pull d).0) (record f { errors = shut }) ≡ true)
        × ((pull d).1.closed ≡ shut)
unfolding pull
pull_parts-kept [] true f accepted reported t = (t, (refl, inl refl), refl, refl)
pull_parts-kept [] false f accepted reported t = (t, tt, refl, refl)
pull_parts-kept (e ∷ q) shut f accepted reported t =
    (next_in_hand e q accepted reported t, tt, refl, refl)

caught-IsJoined :
    {S T : Type 0} (r : Pulled Exception) (p : Pump S) (q : Pump T) → IsJoined (caught r) p q
caught-IsJoined (value e) p q = tt
caught-IsJoined ended p q = tt
caught-IsJoined waiting p q = tt

joined_lem :
    {S T : Type 0} (B : Main → Type 0) (p : Pump S) (q : Pump T)
    → B Main.joining
    → B Main.done
    → B (joined p q)
joined_lem B Pump.over Pump.over j d = d
joined_lem B Pump.over Pump.pulling j d = j
joined_lem B Pump.over (Pump.holding w) j d = j
joined_lem B Pump.pulling q j d = j
joined_lem B (Pump.holding v) q j d = j

joined-IsJoined : {S T : Type 0} (p : Pump S) (q : Pump T) → IsJoined (joined p q) p q
joined-IsJoined Pump.over Pump.over = (refl, refl)
joined-IsJoined Pump.over Pump.pulling = tt
joined-IsJoined Pump.over (Pump.holding w) = tt
joined-IsJoined Pump.pulling q = tt
joined-IsJoined (Pump.holding v) q = tt

pub raised_le : {D : Type 0} (w : Worker D) → raised w ≤ 1
raised_le (Worker.closing stage) = omega arith
raised_le Worker.returned = omega arith
raised_le Worker.testing = omega arith
raised_le Worker.requesting = omega arith
raised_le Worker.sleeping = omega arith
raised_le (Worker.arrived resp) = omega arith
raised_le (Worker.handling resp) = omega arith
raised_le (Worker.storing resp ev) = omega arith
raised_le (Worker.failing e) = omega arith

-- With one error at most, the one that is reported is the last.
last_error :
    (reported : List Exception) (e : Exception) (q accepted : List Exception)
    → (reported ++ e ∷ []) ++ q ≡ accepted
    → length accepted ≤ 1
    → (q ≡ []) × (1 ≤ length (reported ++ e ∷ []))
last_error reported e [] accepted t few = (refl, omega (arith, length-append reported (e ∷ [])))
last_error reported e (x ∷ q) accepted t few = absurd (
    omega (
      arith,
      ap length t,
      few,
      length-append (reported ++ e ∷ []) (x ∷ q),
      length-append reported (e ∷ []),
    ))

module _ {D : Type 0} where
  pub main_step-IsConsistent :
      (m : Main) (s : System D) → s.main ≡ m → IsConsistent s → IsConsistent (main_step m s)
  unfolding main_step
  main_step-IsConsistent Main.pulling s e c =
      let kept =
        pull_parts-kept s.errors.q s.errors.closed (flags s) s.accepted_errors s.reported
          (subst (λ m. IsTracked s.errors (in_main m) s.accepted_errors s.reported) e c.errors) in
      record {
        flagged =
            (rw kept.3 c.flagged.0, rw kept.3 c.flagged.1, rw kept.3 c.flagged.2, rw kept.3 kept.2);
        matches = c.matches;
        notifications = c.notifications;
        errors = kept.0;
        few = c.few;
        settled = kept.1;
        joined = caught-IsJoined (pull s.errors).0 s.match_pump s.notification_pump;
        low = c.low;
        high = c.high;
      }
  main_step-IsConsistent (Main.holding x) s e c =
      let t = subst (λ m. IsTracked s.errors (in_main m) s.accepted_errors s.reported) e c.errors in
      let l =
        last_error s.reported x s.errors.q s.accepted_errors t
          (omega (arith, c.few, raised_le s.worker)) in
      record {
        flagged = (c.flagged.0, c.flagged.1, c.flagged.2, refl);
        matches = c.matches;
        notifications = c.notifications;
        errors = give-IsTracked x s.errors s.accepted_errors s.reported t;
        few = c.few;
        settled = (l.0, inr l.1);
        joined = tt;
        low = c.low;
        high = c.high;
      }
  main_step-IsConsistent (Main.closing stage) s e c =
      let r = subst (λ m. main_reached m (flags s) ≡ true) e c.flagged.3 in
      let f = line-IsFlagged stage (flags s) s.closer s.worker s.main r c.flagged in
      let h = subst (λ m. IsSettled m s.errors s.reported) e c.settled in
      rw (worker-close_line stage s, closer-close_line stage s)
        (line_placed stage s s.closer s.worker (joins stage) r
          (f.0, f.1, f.2, joins-reached stage (flags s)) (omega arith)
          (rw (in_main-joins stage, e) refl) (joins-IsSettled stage s.errors s.reported h)
          (joins-IsJoined stage s.match_pump s.notification_pump) c)
  main_step-IsConsistent Main.joining s e c =
      let r = subst (λ m. main_reached m (flags s) ≡ true) e c.flagged.3 in
      let h = subst (λ m. IsSettled m s.errors s.reported) e c.settled in
      let t = subst (λ m. IsTracked s.errors (in_main m) s.accepted_errors s.reported) e c.errors in
      record {
        flagged = (
          c.flagged.0,
          c.flagged.1,
          c.flagged.2,
          joined_lem (λ m. main_reached m (flags s) ≡ true) s.match_pump s.notification_pump r r,
        );
        matches = c.matches;
        notifications = c.notifications;
        errors =
            joined_lem (λ m. IsTracked s.errors (in_main m) s.accepted_errors s.reported)
              s.match_pump s.notification_pump t t;
        few = c.few;
        settled =
            joined_lem (λ m. IsSettled m s.errors s.reported) s.match_pump s.notification_pump h h;
        joined = joined-IsJoined s.match_pump s.notification_pump;
        low = c.low;
        high = c.high;
      }
  main_step-IsConsistent Main.done s e c = c
