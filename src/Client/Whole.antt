-- ===== src/Client/Whole.antt =====
-- What a whole recognition of src/client.cpp spends and makes known, a refused source included.
use audd_cpp.Prelude.{
  ℕ, suc, ◌+◌, ◌-◌, ◌≤◌, ◌<◌, ◌≡◌, refl, Bool, true, false, [], ◌∷◌, ◌++◌, inl, inr,
}
use audd_cpp.Prelude.Int.{pos}
use audd_cpp.Prelude.Text.{Text, utf8}
use audd_cpp.Json.{Json}
use audd_cpp.Platform.{Platform}
use audd_cpp.Error.{Result, Result-cases, ok, err}
use audd_cpp.Http.{HttpClient, FormFields, Network}
use audd_cpp.Http.Transport.{Curl, Transfer}
use audd_cpp.Source.{Source, prepare_source, not_a_source}
use audd_cpp.Client.{AudD, World, AudDEvent, Kind}
use audd_cpp.Client.Events.{IsEnd, metered_call-events}
use audd_cpp.Client.Options.{
  RecognizeOptions, EnterpriseOptions, apply_enterprise_opts, apply_recognize_opts,
}
use audd_cpp.Client.Recognize.{
  api_base, enterprise_base, event_of, recognize, recognize_enterprise, then_read, metered_call,
  recognition_of, matches_of,
}

-- The transfers between `n` and `m`: one at least and `limit` at most, and all but the last uploaded nothing.
pub record IsFrugal (uploads : Transfer → Bool) (limit : ℕ) (n m : Network) : Type 0 where
  pub repeated : ℕ
  pub few : repeated ≤ limit - 1
  pub total : m.asked ≡ n.asked + suc repeated
  pub spared : (i : ℕ) → i < repeated → uploads (n.answers (n.asked + i)) ≡ false

-- No transfer for a source that is refused.
abbrev pub Spends : (Transfer → Bool) → ℕ → Result FormFields → Network → Network → Type 0
Spends uploads limit (err e) n m = m ≡ n
Spends uploads limit (ok fields) n m = IsFrugal uploads limit n m

module _ (P : Platform) (C : Curl) where
  open P use {Double}

  -- The two events of a call, and none for a source that is refused.
  abbrev pub Announces : Text → Text → Result FormFields → World → World → Type 0
  Announces method url (err e) w v = v.events ≡ w.events
  Announces method url (ok fields) w v =
      (last : AudDEvent) × (v.events
        ≡ w.events ++ event_of P C Kind.request method url [] (pos 0) 0 ∷ last ∷ [])
      × IsEnd P C method url last

  then_read-world :
      {A : Type 0} (f : Json Double → A) (r : Result (Json Double) × World)
      → (then_read P C f r).1 ≡ r.1
  then_read-world f (err e, w) = refl
  then_read-world f (ok body, w) = refl

  -- A call that was made, and what is read of its answer.
  module _ {A : Type 0} (f : Json Double → A) (c : AudD) (http : HttpClient) (method url : Text)
      (fields : FormFields) (w : World) where
    abbrev read_call : Result A × World
    read_call = then_read P C f (metered_call P C c http method url fields w)

    read_call-events : c.config.listens ≡ true → Announces method url (ok fields) w read_call.1
    read_call-events listens =
        rw (then_read-world f (metered_call P C c http method url fields w))
          (metered_call-events P C c http method url fields w listens)

  module _ (opens : Text → Bool) (c : AudD) (source : Source) (opts : RecognizeOptions)
      (enterprise_opts : EnterpriseOptions) (w : World) where
    abbrev prepared : Result FormFields
    prepared = prepare_source opens not_a_source source

    -- With a hook set, a recognition of either kind delivers two events, whatever the network does and however
    -- often it tries: the request, then one of kind response or exception, both of the same method and URL;
    -- and for a source that is refused none.
    pub recognitions-Announces :
        c.config.listens ≡ true
        → Announces
            (utf8 "recognize")
            (api_base ++ utf8 "/")
            prepared
            w
            (recognize P C opens c source opts w).1
          × Announces
              (utf8 "recognize_enterprise")
              (enterprise_base ++ utf8 "/")
              prepared
              w
              (recognize_enterprise P C opens c source enterprise_opts w).1
    unfolding recognize recognize_enterprise
    recognitions-Announces listens = elim (Result-cases prepared) [
      | inr (x, e) ↦ rw (recognize, recognize_enterprise, e) (refl, refl)
      | inl (fields, e) ↦
          rw (recognize, recognize_enterprise, e)
            (
              read_call-events (recognition_of P C) c c.standard_http (utf8 "recognize")
                  (api_base ++ utf8 "/") (apply_recognize_opts fields opts) w listens,
              read_call-events (matches_of P C) c c.enterprise_http (utf8 "recognize_enterprise")
                  (enterprise_base ++ utf8 "/") (apply_enterprise_opts fields enterprise_opts) w
                  listens,
            )
    ]
