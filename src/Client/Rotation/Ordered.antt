-- ===== src/Client/Rotation/Ordered.antt =====
-- What holds of the requests of a client while threads set its token, src/client.cpp.
use mathlib.Core.Path.{subst}
use mathlib.Core.List.{append_assoc}
use native.Mathlib.Nat.{le_refl}
use audd_cpp.Prelude.{
  ℕ, ◌≤◌, ◌≡◌, refl, sym, ◌∙◌, ap, Bool, true, false, none, List, [], ◌∷◌, ◌++◌, arith, All,
  All-append, if◌then◌else◌,
}
use audd_cpp.Prelude.Text.{Text}
use audd_cpp.Http.{inject_token}
use audd_cpp.Client.Rotation.{
  answered, returned, Sent, Tokens, begin, Action, sets, asks, runs, sends, act, schedule,
}
use audd_cpp.Client.Rotation.Steps.{
  is_inside, IsRotating, begin-IsRotating, act-IsRotating, act-Grows, act-history, added, act-sent,
  IsNamed, act-IsNamed,
}

-- The form of a request has the token of its version, which was written.
abbrev pub IsOwn : Tokens → Sent → Type 0
IsOwn s r = (r.version ≤ s.version) × (r.form ≡ inject_token (s.history r.version) r.fields)

-- From the last request of one HTTP client to its first the versions fall, from `bound` on.
abbrev pub Falls : Bool → ℕ → List Sent → Type 0
Falls true bound [] = Unit
Falls false bound [] = Unit
Falls true bound (r ∷ sent) =
    if r.enterprise then (r.version ≤ bound) × Falls true r.version sent else Falls true bound sent
Falls false bound (r ∷ sent) =
    if r.enterprise
    then Falls false bound sent
    else (r.version ≤ bound) × Falls false r.version sent

All-weaken {ℓ κ ι} :
    {A : Type ℓ} {P : A → Type κ} {Q : A → Type ι} (xs : List A)
    → ((a : A) → P a → Q a)
    → All P xs
    → All Q xs
All-weaken [] f h = tt
All-weaken (x ∷ xs) f h = (f x h.0, All-weaken xs f h.1)

act-IsOwn : (a : Action) (s : Tokens) → IsRotating s → (r : Sent) → IsOwn s r → IsOwn (act a s) r
act-IsOwn a s c r o = (
  omega (arith, (act-Grows a s c).version, o.0),
  o.1 ∙ ap (λ t. inject_token t r.fields) (sym (act-history a s r.version o.0)),
)

added-IsOwn : (a : Action) (s : Tokens) → IsRotating s → All (IsOwn s) (added a s)
added-IsOwn (sets i t) s c = tt
added-IsOwn (asks i) s c = tt
added-IsOwn (runs i) s c = tt
added-IsOwn (sends true fields) s c = (
  (omega (arith, c.lagging.enterprise_lags), ap (λ t. inject_token t fields) c.lagging.enterprise),
  tt,
)
added-IsOwn (sends false fields) s c = (
  (omega (arith, c.lagging.standard_lags), ap (λ t. inject_token t fields) c.lagging.standard),
  tt,
)

act-All-IsOwn :
    (a : Action) (s : Tokens)
    → IsRotating s
    → All (IsOwn s) s.sent
    → All (IsOwn (act a s)) (act a s).sent
act-All-IsOwn a s c o = subst (All (IsOwn (act a s))) (sym (act-sent a s)) (
    All-weaken (added a s ++ s.sent) (act-IsOwn a s c)
      (All-append (IsOwn s) (added a s) s.sent (added-IsOwn a s c) o))

Falls-le : (e : Bool) (b d : ℕ) (sent : List Sent) → b ≤ d → Falls e b sent → Falls e d sent
Falls-le true b d [] h f = tt
Falls-le false b d [] h f = tt
Falls-le true b d (r ∷ sent) h f = ground (arith, Falls-le true b d sent)
Falls-le false b d (r ∷ sent) h f = ground (arith, Falls-le false b d sent)

sent-Falls :
    (a : Action) (s : Tokens)
    → Falls true s.enterprise_version s.sent × Falls false s.standard_version s.sent
    → Falls true s.enterprise_version (added a s ++ s.sent)
      × Falls false s.standard_version (added a s ++ s.sent)
sent-Falls (sets i t) s f = f
sent-Falls (asks i) s f = f
sent-Falls (runs i) s f = f
sent-Falls (sends true fields) s f = ((le_refl s.enterprise_version, f.0), f.1)
sent-Falls (sends false fields) s f = (f.0, (le_refl s.standard_version, f.1))

pub record IsLogged (s : Tokens) : Type 0 where
  pub rotating : IsRotating s
  pub named : (v : ℕ) → IsNamed s v
  pub own : All (IsOwn s) s.sent
  pub enterprise_falls : Falls true s.enterprise_version s.sent
  pub standard_falls : Falls false s.standard_version s.sent

act-IsLogged : (a : Action) (s : Tokens) → IsLogged s → IsLogged (act a s)
act-IsLogged a s l =
    let f = sent-Falls a s (l.enterprise_falls, l.standard_falls) in
    let g = act-Grows a s l.rotating in
    let e = sym (act-sent a s) in
    record {
      rotating = act-IsRotating a s l.rotating;
      named = λ v. act-IsNamed a s v l.rotating (l.named v);
      own = act-All-IsOwn a s l.rotating l.own;
      enterprise_falls =
          Falls-le true _ _ (act a s).sent g.enterprise
            (subst (Falls true s.enterprise_version) e f.0);
      standard_falls =
          Falls-le false _ _ (act a s).sent g.standard
            (subst (Falls false s.standard_version) e f.1);
    }

schedule-IsLogged :
    (actions : List Action) (s : Tokens) → IsLogged s → IsLogged (schedule actions s)
unfolding schedule
schedule-IsLogged [] s l = l
schedule-IsLogged (a ∷ later) s l = schedule-IsLogged later (act a s) (act-IsLogged a s l)

begin-IsLogged : (token : Text) → IsLogged (begin token)
begin-IsLogged token = record {
  rotating = begin-IsRotating token;
  named = λ v h k. absurd (omega arith);
  own = tt;
  enterprise_falls = tt;
  standard_falls = tt;
}

agree :
    (s : Tokens)
    → IsRotating s
    → s.holder ≡ none
    → (s.standard ≡ s.api_token) × (s.enterprise ≡ s.api_token)
agree s c free = ground (arith, c.lagging)

behind :
    (s : Tokens)
    → IsRotating s
    → (s.enterprise_version ≤ s.version) × (s.standard_version ≤ s.version)
behind s c = omega (arith, c.lagging.enterprise_lags, c.lagging.standard_lags)

answer :
    (s : Tokens) (i v : ℕ) (t : Text)
    → IsRotating s
    → s.pc i ≡ answered t v
    → (v ≤ s.version) × (t ≡ s.history v)
answer s i v t c e = ground (arith, (c.placed i).carries)

reached :
    (s : Tokens) (i v : ℕ) (t : Text)
    → IsRotating s
    → s.pc i ≡ returned t v
    → (v ≤ s.enterprise_version) × (v ≤ s.standard_version) × (v ≤ s.version) × (t ≡ s.history v)
reached s i v t c e = ground (arith, c.lagging, (c.placed i).carries)

-- Whatever the order in which any number of threads call `set_api_token` and `api_token` and send requests:
-- two threads are never between the lock and the unlock at once; while the mutex is free both HTTP clients
-- have the token of the client; every request carries, where it takes one, a token that was in force, the
-- first one or one that was set and not empty, and the requests of each HTTP client carry them in the
-- order in which they were set; and `api_token` answers with such a token.
pub schedule-rotated :
    (token : Text) (actions : List Action)
    → let s = schedule actions (begin token) in
      ((i j : ℕ) → is_inside (s.pc i) ≡ true → is_inside (s.pc j) ≡ true → i ≡ j)
      × (s.holder ≡ none → (s.standard ≡ s.api_token) × (s.enterprise ≡ s.api_token))
      × All (IsOwn s) s.sent
      × ((v : ℕ) → IsNamed s v)
      × Falls true s.version s.sent
      × Falls false s.version s.sent
      × ((i v : ℕ) (t : Text) → s.pc i ≡ answered t v → (v ≤ s.version) × (t ≡ s.history v))
schedule-rotated token actions =
    let s = schedule actions (begin token) in
    let l = schedule-IsLogged actions (begin token) (begin-IsLogged token) in
    let c = l.rotating in
    (
      λ i j h k. ground (arith, (c.placed i).held h, (c.placed j).held k),
      λ free. agree s c free,
      l.own,
      l.named,
      Falls-le true _ _ s.sent (behind s c).0 l.enterprise_falls,
      Falls-le false _ _ s.sent (behind s c).1 l.standard_falls,
      λ i v t e. answer s i v t c e,
    )

-- The requests that `u` has and `s` had not. Each has the form with the token of its version, which is `v` or
-- a later one.
abbrev pub HasLater : ℕ → Tokens → Tokens → Type 0
HasLater v s u =
    (more : List Sent) × (u.sent ≡ more ++ s.sent) × All (λ r. (v ≤ r.version) × IsOwn u r) more

added-later :
    (a : Action) (s : Tokens) (v : ℕ)
    → v ≤ s.enterprise_version
    → v ≤ s.standard_version
    → All (λ r. v ≤ r.version) (added a s)
added-later (sets i t) s v h k = tt
added-later (asks i) s v h k = tt
added-later (runs i) s v h k = tt
added-later (sends true fields) s v h k = (h, tt)
added-later (sends false fields) s v h k = (k, tt)

schedule-later :
    (actions : List Action) (s : Tokens) (v : ℕ)
    → IsRotating s
    → v ≤ s.enterprise_version
    → v ≤ s.standard_version
    → (more : List Sent) × ((schedule actions s).sent ≡ more ++ s.sent)
      × All (λ r. v ≤ r.version) more
unfolding schedule
schedule-later [] s v c h k = ([], refl, tt)
schedule-later (a ∷ actions) s v c h k =
    let g = act-Grows a s c in
    let (more, e, all) =
      schedule-later actions (act a s) v (act-IsRotating a s c) (omega (arith, g.enterprise))
        (omega (arith, g.standard)) in
    (
      more ++ added a s,
      e ∙ ap (λ l. more ++ l) (act-sent a s) ∙ sym (append_assoc more (added a s) s.sent),
      All-append (λ r. v ≤ r.version) more (added a s) all (added-later a s v h k),
    )

schedule-history :
    (actions : List Action) (s : Tokens) (v : ℕ)
    → IsRotating s
    → v ≤ s.version
    → (schedule actions s).history v ≡ s.history v
unfolding schedule
schedule-history [] s v c h = refl
schedule-history (a ∷ actions) s v c h =
    schedule-history actions (act a s) v (act-IsRotating a s c)
      (omega (arith, (act-Grows a s c).version))
    ∙ act-history a s v h

All-both {ℓ κ ι} :
    {A : Type ℓ} (P : A → Type κ) (Q : A → Type ι) (xs ys : List A)
    → All P xs
    → All Q (xs ++ ys)
    → All (λ x. P x × Q x) xs
All-both P Q [] ys p q = tt
All-both P Q (x ∷ xs) ys p q = ((p.0, q.0), All-both P Q xs ys p.1 q.1)

-- Once a call of `set_api_token` with a token has returned, every request from then on, of both HTTP clients
-- and whatever other threads do, has the form of its fields with this token or with one that was set after
-- it; a token that its fields have already stays.
pub schedule-fresh :
    (token : Text) (before actions : List Action) (i v : ℕ) (t : Text)
    → let s = schedule before (begin token) in
      s.pc i ≡ returned t v
      → HasLater v s (schedule actions s) × ((schedule actions s).history v ≡ t)
schedule-fresh token before actions i v t e =
    let s = schedule before (begin token) in
    let u = schedule actions s in
    let l = schedule-IsLogged before (begin token) (begin-IsLogged token) in
    let r = reached s i v t l.rotating e in
    let (more, split, later) = schedule-later actions s v l.rotating r.0 r.1 in
    let own = subst (All (IsOwn u)) split (schedule-IsLogged actions s l).own in
    (
      (more, split, All-both (λ r. v ≤ r.version) (IsOwn u) more s.sent later own),
      schedule-history actions s v l.rotating r.2 ∙ sym r.3,
    )
