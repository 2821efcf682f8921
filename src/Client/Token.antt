-- ===== src/Client/Token.antt =====
-- The token of the client: `AudD::AudD`, `AudD::strict` and `set_api_token` of src/client.cpp.
use audd_cpp.Prelude.{
  ◌≡◌, refl, [], ◌∷◌, false, Option, none, some, arith, if◌then◌else◌, Bool-cases, inl, inr,
}
use audd_cpp.Prelude.Text.{Text, is_empty}
use audd_cpp.Error.{ok, err, audd, missing_api_token, if_ok}
use audd_cpp.Client.{AudD, ClientConfig, new_client, strict, set_api_token, effective_token}

-- The two HTTP clients send the token of the client.
abbrev pub IsInStep : AudD → Type 0
IsInStep c = (c.standard_http.api_token ≡ c.api_token) × (c.enterprise_http.api_token ≡ c.api_token)

made-IsInStep :
    (t : Text) (made c : AudD)
    → IsInStep made
    → made.api_token ≡ t
    → (if is_empty t then err (audd missing_api_token) else ok made) ≡ ok c
    → IsInStep c × (is_empty c.api_token ≡ false) × (c.api_token ≡ t)
made-IsInStep [] made c s e h = ground (arith, h)
made-IsInStep (x ∷ t) made c s e h =
    let same : made ≡ c = (if_ok false (audd missing_api_token) made c h).1 in
    rw (← same) (s, rw e refl, e)

twice :
    (token : Text) (env : Option Text)
    → effective_token (effective_token token env) env ≡ effective_token token env
twice [] none = refl
twice [] (some []) = refl
twice [] (some (x ∷ t)) = refl
twice (x ∷ token) env = refl

-- A client that `strict` returns has a token, the given one or else that of the environment, and both HTTP
-- clients send it.
pub strict-IsInStep :
    (token : Text) (config : ClientConfig) (env : Option Text) (c : AudD)
    → strict token config env ≡ ok c
    → IsInStep c × (is_empty c.api_token ≡ false) × (c.api_token ≡ effective_token token env)
unfolding strict new_client
strict-IsInStep token config env c h =
    made-IsInStep (effective_token token env) (new_client (effective_token token env) config env) c
      (refl, refl) (twice token env) h

-- Changing the token keeps the HTTP clients in step, on every branch: an empty one changes nothing, any
-- other is then sent by both, and neither the configuration nor a time limit changes.
pub set_api_token-IsInStep :
    (token : Text) (c : AudD)
    → IsInStep c
    → let (r, d) = set_api_token token c in
      IsInStep d
      × (d.api_token ≡ (if is_empty token then c.api_token else token))
      × (d.config ≡ c.config)
      × (d.standard_http.timeout ≡ c.standard_http.timeout)
      × (d.enterprise_http.timeout ≡ c.enterprise_http.timeout)
unfolding set_api_token
set_api_token-IsInStep token c s = elim (Bool-cases (is_empty token)) [
  | inl e ↦ rw e (s, refl, refl, refl, refl)
  | inr e ↦ rw e ((refl, refl), refl, refl, refl, refl)
]
