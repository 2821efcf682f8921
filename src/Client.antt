-- ===== src/Client.antt =====
-- src/client.cpp and src/internal/client_internal.hpp: the client's state, construction and tokens, the
-- events, and the plumbing that the sub-clients share.
pub mod Options
pub mod Recognize
pub mod Token
pub mod Rotation
pub mod Accessors
pub mod Throws
pub mod Form
pub mod Billing
pub mod Events
pub mod Decisive
pub mod Whole
mod Tests
use audd_cpp.Prelude.{
  ℕ, ◌+◌, ◌-◌, Bool, true, false, Option, none, some, List, [], ◌∷◌, ◌++◌, if◌then◌else◌,
}
use audd_cpp.Prelude.Int.{ℤ, pos}
use audd_cpp.Prelude.Text.{Text, utf8, is_empty}
use audd_cpp.Prelude.Dict.{Dict}
use audd_cpp.Json.{Json}
use audd_cpp.Platform.{Platform}
use audd_cpp.Error.{Exception, audd, missing_api_token, invalid_argument, Result, ok, err}
use audd_cpp.Retry.{
  Exec, RetryGate, all_connection_errors, pre_upload_only, retry_on_connection_error,
}
use audd_cpp.Http.{HttpClient, HttpResponse, FormFields, Network, post_form, get}
use audd_cpp.Http.Transport.{Curl}
use audd_cpp.Response.{Decoded, decode_or_throw}

pub data Kind : Type 0 where
  request response exception : Kind

pub record AudDEvent : Type 0 where
  pub kind : Kind
  pub method : Text
  pub url : Text
  pub request_id : Text
  pub http_status : ℤ
  pub elapsed : ℕ
  pub error_code : ℤ

-- `listens` is whether `on_event` is set. `on_deprecation` always is.
pub record ClientConfig : Type 0 where
  pub standard_timeout : ℤ
  pub enterprise_timeout : ℤ
  pub max_attempts : ℤ
  pub backoff_factor : ℕ
  pub listens : Bool

abbrev pub default_config : ClientConfig
default_config = record {
  standard_timeout = pos 90000;
  enterprise_timeout = pos 3600000;
  max_attempts = pos 3;
  backoff_factor = 500;
  listens = false;
}

-- `AudD` with its `Internal`.
pub record AudD : Type 0 where
  pub config : ClientConfig
  pub api_token : Text
  pub standard_http : HttpClient
  pub enterprise_http : HttpClient

-- What a call changes: the network, the steady clock in milliseconds, and what it makes known.
pub record World : Type 0 where
  pub network : Network
  pub clock : ℕ → ℕ
  pub ticks : ℕ
  pub slept : List ℕ
  pub events : List AudDEvent
  pub deprecations : List Text

-- `effective_token`, with the value of AUDD_API_TOKEN.
abbrev pub effective_token : Text → Option Text → Text
effective_token token env =
    if is_empty token then (elim env [ none ↦ token | some t ↦ t ]) else token

unfoldable pub new_client : Text → ClientConfig → Option Text → AudD
new_client token config env =
    let t = effective_token token env in
    record {
      config = config;
      api_token = t;
      standard_http = record { api_token = t; timeout = config.standard_timeout };
      enterprise_http = record { api_token = t; timeout = config.enterprise_timeout };
    }

unfoldable pub strict : Text → ClientConfig → Option Text → Result AudD
unfolding new_client
strict token config env =
    let t = effective_token token env in
    if is_empty t then err (audd missing_api_token) else ok (new_client t config env)

unfoldable pub set_api_token : Text → Exec AudD (Unit {0})
set_api_token new_token c =
    if is_empty new_token
    then (err (invalid_argument (utf8 "audd: set_api_token requires a non-empty token")), c)
    else (
      ok tt,
      record c {
        api_token = new_token;
        standard_http = record c.standard_http { api_token = new_token };
        enterprise_http = record c.enterprise_http { api_token = new_token };
      },
    )

-- `sleep_for`
abbrev pub sleep : ℕ → World → World
sleep wait w = record w { slept = w.slept ++ wait ∷ [] }

abbrev pub on_network {ℓ} : {A : Type ℓ} → (Network → Result A × Network) → World → Result A × World
on_network m w = let (r, n) = m w.network in (r, record w { network = n })

-- An exception of the hook is swallowed, so the event counts as delivered.
unfoldable pub emit_event : AudD → AudDEvent → World → World
emit_event c ev w = if c.config.listens then record w { events = w.events ++ ev ∷ [] } else w

abbrev pub read_clock : World → World
read_clock w = record w { ticks = w.ticks + 1 }

abbrev pub now : World → ℕ
now w = w.clock w.ticks

-- The call of `on_deprecation`, which returns.
abbrev pub warn : Option Text → World → World
warn none w = w
warn (some msg) w = record w { deprecations = w.deprecations ++ msg ∷ [] }

module _ (P : Platform) (C : Curl) where
  open P use {Double}

  -- `decode_or_throw` behind a request that may have thrown. The hook of `warn` returns: an exception of the
  -- hook, which the source lets through, is left out.
  unfoldable pub decoded :
      Bool → Result (HttpResponse Double) × World → Result (Json Double) × World
  unfolding decode_or_throw
  decoded ctx (err e, w) = (err e, w)
  decoded ctx (ok resp, w) = let (r, warning) = decode_or_throw P resp ctx in (r, warn warning w)

  -- `AudD::Internal::post_form` with `max_attempts`.
  unfoldable pub internal_post_form :
      AudD → Text → FormFields → Bool → ℤ → RetryGate → Exec World (Json Double)
  unfolding decoded retry_on_connection_error post_form
  internal_post_form c url fields ctx max_attempts gate w = decoded ctx (
      retry_on_connection_error sleep (on_network (post_form P C c.standard_http url fields)) gate
        max_attempts c.config.backoff_factor w)

  unfoldable pub internal_get : AudD → Text → Dict Text → Exec World (Json Double)
  unfolding decoded retry_on_connection_error get
  internal_get c url params w = decoded false (
      retry_on_connection_error sleep (on_network (get P C c.standard_http url params))
        all_connection_errors c.config.max_attempts c.config.backoff_factor w)
