-- ===== src/Client/Rotation/Tests.antt =====
-- Examples of threads that set the token of a client.
use audd_cpp.Prelude.{ℕ, ◌≤◌, ◌≡◌, refl, true, false, none, List, [], ◌∷◌, All, if◌then◌else◌}
use audd_cpp.Prelude.Text.{Text, utf8, is_empty}
use audd_cpp.Prelude.Dict.{lookup, insert}
use audd_cpp.Http.{inject_token}
use audd_cpp.Client.{AudD, default_config, set_api_token}
use audd_cpp.Client.Rotation.{
  answered, returned, refused, Action, sets, asks, runs, sends, begin, schedule,
}
use audd_cpp.Client.Rotation.Steps.{is_inside, IsNamed}
use audd_cpp.Client.Rotation.Ordered.{IsOwn, Falls, HasLater, schedule-rotated, schedule-fresh}
use audd_cpp.Client.Rotation.Alone.{with_tokens, set_alone}

abbrev old : Text
old = utf8 "t"

abbrev new : Text
new = utf8 "u"

-- A call of `set_api_token` up to the place between the two HTTP clients, with a request of each there.
abbrev torn : List Action
torn = sets 0 new ∷ runs 0 ∷ runs 0 ∷ runs 0 ∷ sends false [] ∷ sends true [] ∷ []

-- The rest of the call, and another thread that asks for the token.
abbrev whole : List Action
whole =
    sets 0 new
    ∷ runs 0
    ∷ runs 0
    ∷ asks 1
    ∷ runs 1
    ∷ runs 0
    ∷ runs 0
    ∷ runs 0
    ∷ runs 1
    ∷ runs 1
    ∷ runs 1
    ∷ []

-- The change is not atomic for the requests: one of the standard client takes the new token, and behind it
-- one of the enterprise client takes the old one.
torn_sent :
    (schedule torn (begin old)).sent
    ≡ record { enterprise = true; fields = []; form = ("api_token", old) ∷ []; version = 0 }
      ∷ record { enterprise = false; fields = []; form = ("api_token", new) ∷ []; version = 1 }
      ∷ []
unfolding schedule inject_token lookup insert
torn_sent = refl

whole_answered : (schedule whole (begin old)).pc 1 ≡ answered new 1
unfolding schedule
whole_answered = refl

schedule-rotated_example :
    let s = schedule whole (begin old) in
    ((i j : ℕ) → is_inside (s.pc i) ≡ true → is_inside (s.pc j) ≡ true → i ≡ j)
    × (s.holder ≡ none → (s.standard ≡ s.api_token) × (s.enterprise ≡ s.api_token))
    × All (IsOwn s) s.sent
    × ((v : ℕ) → IsNamed s v)
    × Falls true s.version s.sent
    × Falls false s.version s.sent
    × ((i v : ℕ) (t : Text) → s.pc i ≡ answered t v → (v ≤ s.version) × (t ≡ s.history v))
schedule-rotated_example = schedule-rotated old whole

schedule-fresh_example :
    HasLater 1 (schedule whole (begin old)) (schedule torn (schedule whole (begin old)))
    × ((schedule torn (schedule whole (begin old))).history 1 ≡ new)
unfolding schedule
schedule-fresh_example = schedule-fresh old whole torn 0 1 new refl

abbrev client : AudD
client = record {
  config = default_config;
  api_token = old;
  standard_http = record { api_token = old; timeout = default_config.standard_timeout };
  enterprise_http = record { api_token = old; timeout = default_config.enterprise_timeout };
}

set_alone_test :
    let d = schedule (sets 0 new ∷ runs 0 ∷ runs 0 ∷ runs 0 ∷ runs 0 ∷ runs 0 ∷ []) (begin old) in
    (with_tokens d client ≡ (set_api_token new (with_tokens (begin old) client)).1)
    × (d.pc 0 ≡ (if is_empty new then refused else returned new 1))
    × (d.holder ≡ none)
set_alone_test = set_alone (begin old) client 0 new refl refl
