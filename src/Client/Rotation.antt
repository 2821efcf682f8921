-- ===== src/Client/Rotation.antt =====
-- The token of the client under threads, src/client.cpp and src/http_client.cpp: any number of them set it
-- and read it, while requests take it. One action is one access to what they share; the mutex of an
-- `HttpClient` guards single accesses, that of the client spans several.
pub mod Steps
pub mod Ordered
pub mod Alone
mod Tests
use audd_cpp.Prelude.{
  ℕ, suc, Bool, true, false, Option, none, some, List, [], ◌∷◌, ◌==◌, if◌then◌else◌,
}
use audd_cpp.Prelude.Text.{Text, is_empty}
use audd_cpp.Prelude.Dict.{Dict}
use audd_cpp.Http.{inject_token}

-- Where a thread is. In a call of `set_api_token` it waits for the mutex, writes the token, passes it on to
-- both HTTP clients and unlocks; in one of `api_token` it waits, copies the token and unlocks.
pub data Pc : Type 0 where
  idle refused asking reading : Pc
  waiting writing : Text → Pc
  passing finishing unlocking answered leaving returned : Text → ℕ → Pc

-- A request of the standard or the enterprise client: the fields that it was given and the form that it
-- sends.
pub record Sent : Type 0 where
  pub enterprise : Bool
  pub fields : Dict Text
  pub form : Dict Text
  pub version : ℕ

-- The versions count the tokens that were written, `history` lists them, and `sent` has the requests, the
-- last one first. These, and the versions that a thread carries, record what happened and steer nothing.
pub record Tokens : Type 0 where
  pub holder : Option ℕ
  pub api_token : Text
  pub standard : Text
  pub enterprise : Text
  pub pc : ℕ → Pc
  pub version : ℕ
  pub standard_version : ℕ
  pub enterprise_version : ℕ
  pub history : ℕ → Text
  pub sent : List Sent

-- A client that was made with `token`.
abbrev pub begin : Text → Tokens
begin token = record {
  holder = none;
  api_token = token;
  standard = token;
  enterprise = token;
  pc = λ i. idle;
  version = 0;
  standard_version = 0;
  enterprise_version = 0;
  history = λ n. token;
  sent = [];
}

abbrev pub put {ℓ} : {A : Type ℓ} → ℕ → A → (ℕ → A) → ℕ → A
put i a f j = if i == j then a else f j

abbrev pub is_at_rest : Pc → Bool
is_at_rest idle = true
is_at_rest refused = true
is_at_rest (returned t v) = true
is_at_rest (answered t v) = true
is_at_rest _ = false

-- The next access of thread `i`, which stands at `p`.
unfoldable pub advance : ℕ → Pc → Tokens → Tokens
advance i (waiting t) s = elim s.holder [
  | none ↦ record s { holder = some i; pc = put i (writing t) s.pc }
  | some other ↦ s
]
advance i (writing t) s = record s {
  api_token = t;
  version = suc s.version;
  history = put (suc s.version) t s.history;
  pc = put i (passing t (suc s.version)) s.pc;
}
advance i (passing t v) s = record s {
  standard = t;
  standard_version = v;
  pc = put i (finishing t v) s.pc;
}
advance i (finishing t v) s = record s {
  enterprise = t;
  enterprise_version = v;
  pc = put i (leaving t v) s.pc;
}
advance i (leaving t v) s = record s { holder = none; pc = put i (returned t v) s.pc }
advance i asking s = elim s.holder [
  | none ↦ record s { holder = some i; pc = put i reading s.pc }
  | some other ↦ s
]
advance i reading s = record s { pc = put i (unlocking s.api_token s.version) s.pc }
advance i (unlocking t v) s = record s { holder = none; pc = put i (answered t v) s.pc }
advance i p s = s

-- A thread at rest calls `set_api_token`, or `api_token`; a thread goes on; a request takes its token.
pub data Action : Type 0 where
  sets : ℕ → Text → Action
  asks runs : ℕ → Action
  sends : Bool → Dict Text → Action

abbrev pub token_of : Bool → Tokens → Text
token_of enterprise s = if enterprise then s.enterprise else s.standard

abbrev pub version_of : Bool → Tokens → ℕ
version_of enterprise s = if enterprise then s.enterprise_version else s.standard_version

unfoldable pub act : Action → Tokens → Tokens
unfolding advance inject_token
act (sets i t) s =
    if is_at_rest (s.pc i)
    then record s { pc = put i (if is_empty t then refused else waiting t) s.pc }
    else s
act (asks i) s = if is_at_rest (s.pc i) then record s { pc = put i asking s.pc } else s
act (runs i) s = advance i (s.pc i) s
act (sends enterprise fields) s = record s {
  sent =
      record {
        enterprise = enterprise;
        fields = fields;
        form = inject_token (token_of enterprise s) fields;
        version = version_of enterprise s;
      }
      ∷ s.sent;
}

unfoldable pub schedule : List Action → Tokens → Tokens
unfolding act
schedule [] s = s
schedule (a ∷ later) s = schedule later (act a s)
