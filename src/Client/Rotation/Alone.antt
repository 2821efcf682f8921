-- ===== src/Client/Rotation/Alone.antt =====
-- A call of `set_api_token` with no other thread between its steps, src/client.cpp.
use audd_cpp.Prelude.{
  ℕ, suc, ◌≡◌, refl, true, none, [], ◌∷◌, ◌==◌, arith, if◌then◌else◌, Bool-cases, inl, inr,
}
use audd_cpp.Prelude.Text.{Text, is_empty}
use audd_cpp.Client.{AudD, set_api_token}
use audd_cpp.Client.Rotation.{refused, returned, Tokens, is_at_rest, sets, runs, schedule}

-- The client `c` with the tokens of `s`.
abbrev pub with_tokens : Tokens → AudD → AudD
with_tokens s c = record c {
  api_token = s.api_token;
  standard_http = record c.standard_http { api_token = s.standard };
  enterprise_http = record c.enterprise_http { api_token = s.enterprise };
}

self : (i : ℕ) → (i == i) ≡ true
self i = ground arith

-- The steps of `set_api_token`, one after another, are the call in one step: the same tokens, and it is refused
-- or it returns with the mutex free, as the call is or does.
pub set_alone :
    (s : Tokens) (c : AudD) (i : ℕ) (t : Text)
    → s.holder ≡ none
    → is_at_rest (s.pc i) ≡ true
    → let d = schedule (sets i t ∷ runs i ∷ runs i ∷ runs i ∷ runs i ∷ runs i ∷ []) s in
      (with_tokens d c ≡ (set_api_token t (with_tokens s c)).1)
      × (d.pc i ≡ (if is_empty t then refused else returned t (suc s.version)))
      × (d.holder ≡ none)
unfolding schedule set_api_token
set_alone s c i t free rest = elim (Bool-cases (is_empty t)) [
  | inl blank ↦ simp (rest, blank, self, free) (refl, refl, refl)
  | inr given ↦ simp (rest, given, self, free) (refl, refl, refl)
]
