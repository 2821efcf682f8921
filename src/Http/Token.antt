-- ===== src/Http/Token.antt =====
-- The token that src/http_client.cpp adds to the parameters of a request.
use audd_cpp.Prelude.{◌≡◌, not, ◌&&◌, some, String, arith, if◌then◌else◌, Option-cases, inl, inr}
use audd_cpp.Prelude.Text.{Text, is_empty}
use audd_cpp.Prelude.Dict.{Dict, lookup, lookup-insert}
use audd_cpp.Recognition.{has_value}
use audd_cpp.Http.{inject_token}
use text.Mathlib.Text.{◌==◌ as str_eq}

-- The token goes under `api_token`, if it is not empty and the caller gave none; every other parameter, and
-- a token that the caller gave, is sent as it was given.
pub lookup-inject_token :
    (token : Text) (m : Dict Text) (key : String)
    → lookup key (inject_token token m) ≡ (
        if str_eq "api_token" key && not (is_empty token) && not (has_value (lookup "api_token" m))
        then some token
        else lookup key m)
unfolding inject_token
lookup-inject_token token m key = elim (Option-cases (lookup "api_token" m)) [
  | inr (present, e) ↦ rw e (ground arith)
  | inl e ↦ rw e (ground (arith, lookup-insert "api_token" key token m))
]
