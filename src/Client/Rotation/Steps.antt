-- ===== src/Client/Rotation/Steps.antt =====
-- What each access to the token of a client keeps, src/client.cpp.
use audd_cpp.Prelude.{
  ℕ, ◌+◌, ◌≤◌, ◌≡◌, refl, Bool, true, false, Option, none, some, List, [], ◌∷◌, ◌++◌, arith,
}
use audd_cpp.Prelude.Text.{Text, is_empty}
use audd_cpp.Http.{inject_token}
use audd_cpp.Client.Rotation.{
  Pc, reading, waiting, writing, passing, finishing, unlocking, answered, leaving, returned, Sent,
  Tokens, begin, advance, Action, sets, asks, runs, sends, token_of, version_of, act,
}

-- The places between the lock and the unlock.
abbrev pub is_inside : Pc → Bool
is_inside (writing t) = true
is_inside (passing t v) = true
is_inside (finishing t v) = true
is_inside (leaving t v) = true
is_inside reading = true
is_inside (unlocking t v) = true
is_inside _ = false

-- By how many tokens each HTTP client is behind the client.
abbrev pub standard_lag : Pc → ℕ
standard_lag (passing t v) = 1
standard_lag _ = 0

abbrev pub enterprise_lag : Pc → ℕ
enterprise_lag (passing t v) = 1
enterprise_lag (finishing t v) = 1
enterprise_lag _ = 0

abbrev pub lag : (Pc → ℕ) → Option ℕ → (ℕ → Pc) → ℕ
lag of none pc = 0
lag of (some i) pc = of (pc i)

-- What the token and the version that a thread carries are.
abbrev pub Carries : Pc → Tokens → Type 0
Carries (waiting t) s = is_empty t ≡ false
Carries (writing t) s = is_empty t ≡ false
Carries (passing t v) s = (v ≡ s.version) × (t ≡ s.history v)
Carries (finishing t v) s = (v ≡ s.version) × (t ≡ s.history v)
Carries (leaving t v) s = (v ≡ s.version) × (t ≡ s.history v)
Carries (returned t v) s = (v ≤ s.enterprise_version) × (v ≤ s.version) × (t ≡ s.history v)
Carries (unlocking t v) s = (v ≡ s.version) × (t ≡ s.history v)
Carries (answered t v) s = (v ≤ s.version) × (t ≡ s.history v)
Carries _ s = Unit

pub record IsPlaced (s : Tokens) (i : ℕ) (p : Pc) : Type 0 where
  pub held : is_inside p ≡ true → s.holder ≡ some i
  pub inside : s.holder ≡ some i → is_inside p ≡ true
  pub carries : Carries p s

pub record IsLagging (s : Tokens) : Type 0 where
  pub standard_lags : s.standard_version + lag standard_lag s.holder s.pc ≡ s.version
  pub enterprise_lags : s.enterprise_version + lag enterprise_lag s.holder s.pc ≡ s.version
  pub current : s.api_token ≡ s.history s.version
  pub standard : s.standard ≡ s.history s.standard_version
  pub enterprise : s.enterprise ≡ s.history s.enterprise_version

pub record IsRotating (s : Tokens) : Type 0 where
  pub placed : (i : ℕ) → IsPlaced s i (s.pc i)
  pub lagging : IsLagging s

pub begin-IsRotating : (token : Text) → IsRotating (begin token)
begin-IsRotating token = record {
  placed = λ i. record { held = λ h. cc; inside = λ h. cc; carries = tt };
  lagging = record {
    standard_lags = omega arith;
    enterprise_lags = omega arith;
    current = refl;
    standard = refl;
    enterprise = refl;
  };
}

advance-IsPlaced :
    (i : ℕ) (p : Pc) (s : Tokens)
    → s.pc i ≡ p
    → IsRotating s
    → (j : ℕ) → IsPlaced (advance i p s) j ((advance i p s).pc j)
unfolding advance
advance-IsPlaced i (waiting t) s e c j = ground (arith, c.placed i, c.placed j)
advance-IsPlaced i p s e c j = ground (arith, c.placed i, c.placed j)

advance-IsLagging :
    (i : ℕ) (p : Pc) (s : Tokens) → s.pc i ≡ p → IsRotating s → IsLagging (advance i p s)
unfolding advance
advance-IsLagging i (waiting t) s e c = ground (arith, c.placed i)
advance-IsLagging i p s e c = ground (arith, c.placed i)

act-IsPlaced :
    (a : Action) (s : Tokens) → IsRotating s → (j : ℕ) → IsPlaced (act a s) j ((act a s).pc j)
unfolding act
act-IsPlaced (sets i t) s c j = ground (arith, c.placed i, c.placed j)
act-IsPlaced (asks i) s c j = ground (arith, c.placed i, c.placed j)
act-IsPlaced (runs i) s c j = advance-IsPlaced i (s.pc i) s refl c j
act-IsPlaced (sends enterprise fields) s c j = ground (arith, c.placed j)

act-IsLagging : (a : Action) (s : Tokens) → IsRotating s → IsLagging (act a s)
unfolding act
act-IsLagging (sets i t) s c = ground (arith, c.placed i)
act-IsLagging (asks i) s c = ground (arith, c.placed i)
act-IsLagging (runs i) s c = advance-IsLagging i (s.pc i) s refl c
act-IsLagging (sends enterprise fields) s c = ground (arith, c.placed 0)

pub act-IsRotating : (a : Action) (s : Tokens) → IsRotating s → IsRotating (act a s)
act-IsRotating a s c = record { placed = act-IsPlaced a s c; lagging = act-IsLagging a s c }

-- Versions only grow, and what the history says of a version stays.
pub record Grows (s t : Tokens) : Type 0 where
  pub version : s.version ≤ t.version
  pub standard : s.standard_version ≤ t.standard_version
  pub enterprise : s.enterprise_version ≤ t.enterprise_version

advance-Grows : (i : ℕ) (p : Pc) (s : Tokens) → s.pc i ≡ p → IsRotating s → Grows s (advance i p s)
unfolding advance
advance-Grows i (waiting t) s e c = ground (arith, c.placed i)
advance-Grows i p s e c = ground (arith, c.placed i)

pub act-Grows : (a : Action) (s : Tokens) → IsRotating s → Grows s (act a s)
unfolding act
act-Grows (sets i t) s c = ground arith
act-Grows (asks i) s c = ground arith
act-Grows (runs i) s c = advance-Grows i (s.pc i) s refl c
act-Grows (sends enterprise fields) s c = ground arith

advance-history :
    (i : ℕ) (p : Pc) (s : Tokens) (v : ℕ) → v ≤ s.version → (advance i p s).history v ≡ s.history v
unfolding advance
advance-history i (waiting t) s v h = ground arith
advance-history i p s v h = ground arith

pub act-history :
    (a : Action) (s : Tokens) (v : ℕ) → v ≤ s.version → (act a s).history v ≡ s.history v
unfolding act
act-history (sets i t) s v h = ground arith
act-history (asks i) s v h = ground arith
act-history (runs i) s v h = advance-history i (s.pc i) s v h
act-history (sends enterprise fields) s v h = refl

pub advance-sent : (i : ℕ) (p : Pc) (s : Tokens) → (advance i p s).sent ≡ s.sent
unfolding advance
advance-sent i (waiting t) s = ground arith
advance-sent i p s = ground arith

-- The request that an action sends, if any.
abbrev pub added : Action → Tokens → List Sent
added (sends enterprise fields) s =
    record {
      enterprise = enterprise;
      fields = fields;
      form = inject_token (token_of enterprise s) fields;
      version = version_of enterprise s;
    }
    ∷ []
added _ s = []

pub act-sent : (a : Action) (s : Tokens) → (act a s).sent ≡ added a s ++ s.sent
unfolding act
act-sent (sets i t) s = ground arith
act-sent (asks i) s = ground arith
act-sent (runs i) s = advance-sent i (s.pc i) s
act-sent (sends enterprise fields) s = refl

-- Every token but the first was given to `set_api_token`, so it is not empty.
abbrev pub IsNamed : Tokens → ℕ → Type 0
IsNamed s v = 1 ≤ v → v ≤ s.version → is_empty (s.history v) ≡ false

advance-IsNamed :
    (i : ℕ) (p : Pc) (s : Tokens) (v : ℕ)
    → s.pc i ≡ p
    → IsRotating s
    → IsNamed s v
    → IsNamed (advance i p s) v
unfolding advance
advance-IsNamed i (waiting t) s v e c h = ground (arith, c.placed i)
advance-IsNamed i p s v e c h = ground (arith, c.placed i)

pub act-IsNamed :
    (a : Action) (s : Tokens) (v : ℕ) → IsRotating s → IsNamed s v → IsNamed (act a s) v
unfolding act
act-IsNamed (sets i t) s v c h = ground arith
act-IsNamed (asks i) s v c h = ground arith
act-IsNamed (runs i) s v c h = advance-IsNamed i (s.pc i) s v refl c h
act-IsNamed (sends enterprise fields) s v c h = h
