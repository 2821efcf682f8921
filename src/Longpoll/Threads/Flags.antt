-- ===== src/Longpoll/Threads/Flags.antt =====
-- The four flags that `close_all` of src/longpoll.cpp sets, in its order, and what each thread relies on.
use audd_cpp.Prelude.{
  ℕ, ◌≡◌, refl, Bool, true, not, ◌&&◌, ◌||◌, arith, ◌==◌, if◌then◌else◌, Bool-cases, inl, inr,
}
use audd_cpp.Longpoll.Queue.{close}
use audd_cpp.Longpoll.Threads.State.{
  Stage, entering, marked, closed_matches, closed_notifications, finished, Worker, Main, System,
  next, joins,
}
use audd_cpp.Longpoll.Threads.{close_line, after_close}

pub record Flags : Type 0 where
  pub closed : Bool
  pub matches : Bool
  pub notifications : Bool
  pub errors : Bool

abbrev pub flags : {D : Type 0} → System D → Flags
flags s = record {
  closed = s.closed;
  matches = s.matches.closed;
  notifications = s.notifications.closed;
  errors = s.errors.closed;
}

-- Each flag is set behind the one before it.
abbrev pub in_order : Flags → Bool
in_order f =
    (not f.errors || f.notifications)
    && (not f.notifications || f.matches)
    && (not f.matches || f.closed)

-- What is set for a thread that is that far.
abbrev pub reached : Stage → Flags → Bool
reached entering f = true
reached marked f = f.closed
reached closed_matches f = f.matches
reached closed_notifications f = f.notifications
reached finished f = f.errors

abbrev pub line : Stage → Flags → Flags
line entering f = record f { closed = true }
line marked f = record f { matches = true }
line closed_matches f = record f { notifications = true }
line closed_notifications f = record f { errors = true }
line finished f = f

abbrev pub worker_reached : {D : Type 0} → Worker D → Flags → Bool
worker_reached (Worker.closing stage) f = reached stage f
worker_reached Worker.returned f = f.closed
worker_reached _ f = true

abbrev pub main_reached : Main → Flags → Bool
main_reached (Main.closing stage) f = reached stage f
main_reached Main.joining f = f.errors
main_reached Main.done f = f.errors
main_reached _ f = true

abbrev pub IsFlagged : {D : Type 0} → Flags → (ℕ → Stage) → Worker D → Main → Type 0
IsFlagged f closer worker main =
    (in_order f ≡ true)
    × ((i : ℕ) → reached (closer i) f ≡ true)
    × (worker_reached worker f ≡ true)
    × (main_reached main f ≡ true)

line-in_order :
    (stage : Stage) (f : Flags)
    → in_order f ≡ true
    → reached stage f ≡ true
    → in_order (line stage f) ≡ true
line-in_order entering f o r = ground (arith, o)
line-in_order marked f o r = ground (arith, o, r)
line-in_order closed_matches f o r = ground (arith, o, r)
line-in_order closed_notifications f o r = ground (arith, o, r)
line-in_order finished f o r = o

pub reached-line :
    (stage other : Stage) (f : Flags) → reached other f ≡ true → reached other (line stage f) ≡ true
reached-line entering entering f r = refl
reached-line entering marked f r = refl
reached-line entering closed_matches f r = r
reached-line entering closed_notifications f r = r
reached-line entering finished f r = r
reached-line marked entering f r = refl
reached-line marked marked f r = r
reached-line marked closed_matches f r = refl
reached-line marked closed_notifications f r = r
reached-line marked finished f r = r
reached-line closed_matches entering f r = refl
reached-line closed_matches marked f r = r
reached-line closed_matches closed_matches f r = r
reached-line closed_matches closed_notifications f r = refl
reached-line closed_matches finished f r = r
reached-line closed_notifications entering f r = refl
reached-line closed_notifications marked f r = r
reached-line closed_notifications closed_matches f r = r
reached-line closed_notifications closed_notifications f r = r
reached-line closed_notifications finished f r = refl
reached-line finished other f r = r

reached-next : (stage : Stage) (f : Flags) → reached (next stage) (line stage f) ≡ true
reached-next entering f = refl
reached-next marked f = refl
reached-next closed_matches f = refl
reached-next closed_notifications f = refl
reached-next finished f = refl

pub in_order-closed : (f : Flags) → in_order f ≡ true → f.errors ≡ true → f.closed ≡ true
in_order-closed f o e = ground (arith, o, e)

main_reached-line :
    (stage : Stage) (m : Main) (f : Flags)
    → main_reached m f ≡ true
    → main_reached m (line stage f) ≡ true
main_reached-line stage (Main.closing other) f r = reached-line stage other f r
main_reached-line stage Main.joining f r = reached-line stage finished f r
main_reached-line stage Main.done f r = reached-line stage finished f r
main_reached-line stage Main.pulling f r = refl
main_reached-line stage (Main.holding e) f r = refl

pub joins-reached : (stage : Stage) (f : Flags) → main_reached (joins stage) (line stage f) ≡ true
joins-reached entering f = refl
joins-reached marked f = refl
joins-reached closed_matches f = refl
joins-reached closed_notifications f = refl
joins-reached finished f = refl

pub after_close-reached :
    (D : Type 0) (stage : Stage) (f : Flags)
    → in_order f ≡ true
    → reached stage f ≡ true
    → worker_reached {D = D} (after_close stage) (line stage f) ≡ true
after_close-reached D entering f o r = refl
after_close-reached D marked f o r = refl
after_close-reached D closed_matches f o r = refl
after_close-reached D closed_notifications f o r = ground (arith, o, r)
after_close-reached D finished f o r = refl

module _ {D : Type 0} where
  worker_reached-line :
      (stage : Stage) (w : Worker D) (f : Flags)
      → worker_reached w f ≡ true
      → worker_reached w (line stage f) ≡ true
  worker_reached-line stage (Worker.closing other) f r = reached-line stage other f r
  worker_reached-line stage Worker.returned f r = reached-line stage marked f r
  worker_reached-line stage Worker.testing f r = refl
  worker_reached-line stage Worker.requesting f r = refl
  worker_reached-line stage Worker.sleeping f r = refl
  worker_reached-line stage (Worker.arrived resp) f r = refl
  worker_reached-line stage (Worker.handling resp) f r = refl
  worker_reached-line stage (Worker.storing resp ev) f r = refl
  worker_reached-line stage (Worker.failing e) f r = refl

  pub flags-close_line :
      (stage : Stage) (s : System D) → flags (close_line stage s) ≡ line stage (flags s)
  unfolding close_line close
  flags-close_line entering s = refl
  flags-close_line marked s = refl
  flags-close_line closed_matches s = refl
  flags-close_line closed_notifications s = refl
  flags-close_line finished s = refl

  pub worker-close_line : (stage : Stage) (s : System D) → (close_line stage s).worker ≡ s.worker
  unfolding close_line
  worker-close_line entering s = refl
  worker-close_line marked s = refl
  worker-close_line closed_matches s = refl
  worker-close_line closed_notifications s = refl
  worker-close_line finished s = refl

  pub main-close_line : (stage : Stage) (s : System D) → (close_line stage s).main ≡ s.main
  unfolding close_line
  main-close_line entering s = refl
  main-close_line marked s = refl
  main-close_line closed_matches s = refl
  main-close_line closed_notifications s = refl
  main-close_line finished s = refl

  pub closer-close_line : (stage : Stage) (s : System D) → (close_line stage s).closer ≡ s.closer
  unfolding close_line
  closer-close_line entering s = refl
  closer-close_line marked s = refl
  closer-close_line closed_matches s = refl
  closer-close_line closed_notifications s = refl
  closer-close_line finished s = refl

  -- A line of `close_all` that comes in its turn keeps what every thread relies on.
  pub line-IsFlagged :
      (stage : Stage) (f : Flags) (closer : ℕ → Stage) (w : Worker D) (m : Main)
      → reached stage f ≡ true
      → IsFlagged f closer w m
      → IsFlagged (line stage f) closer w m
  line-IsFlagged stage f closer w m r (o, cs, wr, mr) = (
    line-in_order stage f o r,
    λ i. reached-line stage (closer i) f (cs i),
    worker_reached-line stage w f wr,
    main_reached-line stage m f mr,
  )

  pub closer-IsFlagged :
      (i : ℕ) (f : Flags) (closer : ℕ → Stage) (w : Worker D) (m : Main)
      → IsFlagged f closer w m
      → IsFlagged (line (closer i) f) (λ j. if i == j then next (closer i) else closer j) w m
  closer-IsFlagged i f closer w m h =
      let g = line-IsFlagged (closer i) f closer w m (h.1 i) h in
      (
        g.0,
        λ j. elim (Bool-cases (i == j)) [
          | inl e ↦ rw e (reached-next (closer i) f)
          | inr e ↦ rw e (g.1 j)
        ],
        g.2,
        g.3,
      )
