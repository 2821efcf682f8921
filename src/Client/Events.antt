-- ===== src/Client/Events.antt =====
-- What a recognition makes known: the events and the transfers of `metered_call`, src/client.cpp.
use mathlib.Core.List.{append_assoc}
use mathlib.Core.Path.{subst}
use audd_cpp.Prelude.{
  ℕ, ◌-◌, ◌≡◌, ◌≢◌, refl, ap, ◌∙◌, Bool, true, false, Option, none, some, [], ◌∷◌, ◌++◌, arith,
  Bool-cases, inl, inr,
}
use audd_cpp.Prelude.Int.{pos}
use audd_cpp.Prelude.Text.{Text}
use audd_cpp.Platform.{Platform}
use audd_cpp.Error.{Result, ok, err}
use audd_cpp.Retry.{pre_upload_only, attempts, retry_on_connection_error}
use audd_cpp.Retry.Keeps.{retry_on_connection_error-keeps}
use audd_cpp.Http.{HttpClient, HttpResponse, FormFields, post_form}
use audd_cpp.Http.Transport.{Curl}
use audd_cpp.Response.{decode_or_throw}
use audd_cpp.Client.{
  AudD, World, AudDEvent, Kind, sleep, on_network, decoded, emit_event, read_clock, now, warn,
}
use audd_cpp.Client.Recognize.{metered_call, report, event_of}
use audd_cpp.Client.Billing.{IsCareful, retry-IsCareful}

module _ (P : Platform) (C : Curl) where
  open P use {Double}

  warn-keeps :
      (o : Option Text) (w : World)
      → ((warn o w).network ≡ w.network) × ((warn o w).events ≡ w.events)
  warn-keeps none w = (refl, refl)
  warn-keeps (some msg) w = (refl, refl)

  pub decoded-keeps :
      (ctx : Bool) (r : Result (HttpResponse Double)) (w : World)
      → let v = (decoded P C ctx (r, w)).1 in (v.network ≡ w.network) × (v.events ≡ w.events)
  unfolding decoded
  decoded-keeps ctx (err e) w = (refl, refl)
  decoded-keeps ctx (ok resp) w = warn-keeps (decode_or_throw P resp ctx).1 w

  pub emit_event-network :
      (c : AudD) (ev : AudDEvent) (w : World) → (emit_event c ev w).network ≡ w.network
  unfolding emit_event
  emit_event-network c ev w = elim (Bool-cases c.config.listens) [
    | inl e ↦ rw e refl
    | inr e ↦ rw e refl
  ]

  pub report-network :
      (c : AudD) (method url : Text) (start : ℕ) (r : Result (HttpResponse Double)) (w : World)
      → (report P C c method url start (r, w)).1.network ≡ w.network
  unfolding report
  report-network c method url start (err e) w = emit_event-network c _ (read_clock w)
  report-network c method url start (ok resp) w = emit_event-network c _ (read_clock w)

  -- What follows the request of a call.
  abbrev pub IsEnd : Text → Text → AudDEvent → Type 0
  IsEnd method url last = (last.method ≡ method) × (last.url ≡ url) × (last.kind ≢ Kind.request)

  report-events :
      (c : AudD) (method url : Text) (start : ℕ) (r : Result (HttpResponse Double)) (w : World)
      → c.config.listens ≡ true
      → (last : AudDEvent) × ((report P C c method url start (r, w)).1.events
          ≡ w.events ++ last ∷ [])
        × IsEnd method url last
  unfolding report emit_event
  report-events c method url start (err e) w listens = (
    event_of P C Kind.exception method url [] (pos 0) (now w - start),
    rw listens refl,
    (refl, refl, λ h. ground (arith, h)),
  )
  report-events c method url start (ok resp) w listens = (
    event_of P C Kind.response method url resp.request_id resp.http_status (now w - start),
    rw listens refl,
    (refl, refl, λ h. ground (arith, h)),
  )

  module _ (c : AudD) (http : HttpClient) (method url : Text) (fields : FormFields)
      (w : World) where
    abbrev begun : World
    begun = emit_event c (event_of P C Kind.request method url [] (pos 0) 0) (read_clock w)

    abbrev tried : Result (HttpResponse Double) × World
    tried =
        retry_on_connection_error sleep (on_network (post_form P C http url fields)) pre_upload_only
          c.config.max_attempts c.config.backoff_factor begun

    abbrev reported : Result (HttpResponse Double) × World
    reported = report P C c method url (now w) tried

    -- A call makes at least one transfer and at most the configured attempts, and all but the last were
    -- harmless.
    pub metered_call-IsCareful :
        IsCareful P C fields.file
          (attempts c.config.max_attempts - 1)
          w.network
          (metered_call P C c http method url fields w).1.network
    unfolding metered_call
    metered_call-IsCareful =
        rw
          (
            (decoded-keeps false reported.0 reported.1).0,
            report-network c method url (now w) tried.0 tried.1,
          )
          (subst
            (λ n. IsCareful P C fields.file (attempts c.config.max_attempts - 1) n tried.1.network)
            (emit_event-network c (event_of P C Kind.request method url [] (pos 0) 0)
              (read_clock w))
            (retry-IsCareful P C http url fields c.config.max_attempts c.config.backoff_factor
              begun))

    begun-events :
        c.config.listens ≡ true
        → begun.events ≡ w.events ++ event_of P C Kind.request method url [] (pos 0) 0 ∷ []
    unfolding emit_event
    begun-events listens = rw listens refl

    tried-events : tried.1.events ≡ begun.events
    tried-events =
        retry_on_connection_error-keeps sleep (on_network (post_form P C http url fields))
          pre_upload_only (λ v. v.events) (λ wait v. refl) (λ v. refl) c.config.max_attempts
          c.config.backoff_factor begun

    -- With a hook set, a call delivers two events, whatever the network does and however often it tries: the
    -- request, then one of kind response or exception, both of the same method and URL.
    pub metered_call-events :
        c.config.listens ≡ true
        → (last : AudDEvent) × ((metered_call P C c http method url fields w).1.events
            ≡ w.events ++ event_of P C Kind.request method url [] (pos 0) 0 ∷ last ∷ [])
          × IsEnd method url last
    unfolding metered_call
    metered_call-events listens =
        let (last, queued, is_end) = report-events c method url (now w) tried.0 tried.1 listens in
        (
          last,
          (decoded-keeps false reported.0 reported.1).1
              ∙ queued
              ∙ ap (λ l. l ++ last ∷ []) (tried-events ∙ begun-events listens)
              ∙ append_assoc w.events (event_of P C Kind.request method url [] (pos 0) 0 ∷ [])
                  (last ∷ []),
          is_end,
        )
