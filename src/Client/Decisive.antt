-- ===== src/Client/Decisive.antt =====
-- Which transfer decides a recognition of src/client.cpp: the first that does not fail before its upload,
-- or the last attempt.
use audd_cpp.Prelude.{
  ℕ, zero, suc, ◌*◌, ◌-◌, ◌≡◌, refl, sym, ap, ◌∙◌, Bool, true, false, Option, none, some, [], ◌++◌,
  if◌then◌else◌, Bool-cases, Option-cases, inl, inr,
}
use audd_cpp.Prelude.Int.{pos}
use audd_cpp.Prelude.Text.{Text, utf8}
use audd_cpp.Json.{Json}
use audd_cpp.Platform.{Platform}
use audd_cpp.Error.{audd, connection_error, Result, Result-cases, ok, err}
use audd_cpp.Retry.{pre_upload_only, retryable, attempts, retry_loop, retry_on_connection_error}
use audd_cpp.Http.{
  HttpClient, HttpResponse, FormFields, FileField, Network, post_form, perform, attach_fails,
  response_of,
}
use audd_cpp.Http.Transport.{Curl, Transfer, perform_failed_before_upload, is_ok}
use audd_cpp.Response.{decode_or_throw}
use audd_cpp.Source.{Source, prepare_source, not_a_source}
use audd_cpp.Client.{AudD, World, Kind, sleep, on_network, decoded, emit_event, read_clock, now}
use audd_cpp.Client.Billing.{is_harmless, post_form-network}
use audd_cpp.Client.Events.{emit_event-network, report-network, decoded-keeps}
use audd_cpp.Client.Options.{
  RecognizeOptions, EnterpriseOptions, apply_enterprise_opts, apply_recognize_opts,
}
use audd_cpp.Client.Recognize.{
  api_base, enterprise_base, event_of, metered_call, report, recognize, recognition_of,
  recognize_enterprise, matches_of, then_read,
}

module _ (P : Platform) (C : Curl) where
  open P use {Double}
  open C use {strerror}

  -- How a transfer with this file ends, whatever its form is.
  abbrev pub performed_end : Transfer → Result (HttpResponse Double)
  performed_end t =
      if is_ok t.code
      then ok (response_of P C t)
      else err (audd (connection_error (strerror t.code) (perform_failed_before_upload t)))

  abbrev pub attached_end : Option Text → Transfer → Result (HttpResponse Double)
  attached_end (some path) t =
      err (audd (connection_error (utf8 "failed to attach file: " ++ path) true))
  attached_end none t = performed_end t

  abbrev pub transfer_end : Option FileField → Transfer → Result (HttpResponse Double)
  transfer_end file t =
      if t.easy_init
      then attached_end (attach_fails P C file t) t
      else err (audd (connection_error (utf8 "curl_easy_init failed") true))

  -- The number of the transfer that decides a call with `left` attempts behind the next one.
  abbrev pub decider : Option FileField → (ℕ → Transfer) → ℕ → ℕ → ℕ
  decider file answers next zero = next
  decider file answers next (suc left) =
      if is_harmless P C file (answers next) then decider file answers (suc next) left else next

  post_form-end :
      (client : HttpClient) (url : Text) (fields : FormFields) (n : Network)
      → (post_form P C client url fields n).0 ≡ transfer_end fields.file (n.answers n.asked)
  unfolding post_form perform
  post_form-end client url fields n =
      let t = n.answers n.asked in
      elim (Bool-cases t.easy_init) [
        | inr e ↦ rw e refl
        | inl e ↦ elim (Option-cases (attach_fails P C fields.file t)) [
          | inr (path, a) ↦ rw (a, e) refl
          | inl a ↦ elim (Bool-cases (is_ok t.code)) [
            | inl k ↦ rw (a, k, e) refl
            | inr k ↦ rw (a, k, e) refl
          ]
        ]
      ]

  module _ (http : HttpClient) (url : Text) (fields : FormFields) where
    retry_loop-decisive :
        (left wait : ℕ) (w : World)
        → (retry_loop sleep
            (on_network (post_form P C http url fields))
            pre_upload_only
            left
            wait
            w).0
          ≡ transfer_end fields.file
              (w.network.answers (decider fields.file w.network.answers w.network.asked left))
    unfolding retry_loop
    retry_loop-decisive zero wait w = post_form-end http url fields w.network
    retry_loop-decisive (suc left) wait w =
        let n = (post_form P C http url fields w.network).1 in
        let step = post_form-network P C http url fields w.network in
        elim (Bool-cases (retryable pre_upload_only (post_form P C http url fields w.network).0)) [
          | inr final ↦ rw (final, sym step.2 ∙ final) (post_form-end http url fields w.network)
          | inl again ↦
              rw (again, sym step.2 ∙ again)
                (retry_loop-decisive left (wait * 2) (sleep wait (record w { network = n }))
                  ∙ ap
                      (λ answers.
                        transfer_end fields.file
                          (answers (decider fields.file answers n.asked left)))
                      step.1
                  ∙ ap
                      (λ asked.
                        transfer_end fields.file
                          (w.network.answers (decider fields.file w.network.answers asked left)))
                      step.0)
        ]

    retry_loop-decider :
        (left wait : ℕ) (w : World)
        → (retry_loop sleep
            (on_network (post_form P C http url fields))
            pre_upload_only
            left
            wait
            w).1.network.asked
          ≡ suc (decider fields.file w.network.answers w.network.asked left)
    unfolding retry_loop
    retry_loop-decider zero wait w = (post_form-network P C http url fields w.network).0
    retry_loop-decider (suc left) wait w =
        let n = (post_form P C http url fields w.network).1 in
        let step = post_form-network P C http url fields w.network in
        elim (Bool-cases (retryable pre_upload_only (post_form P C http url fields w.network).0)) [
          | inr final ↦ rw (final, sym step.2 ∙ final) step.0
          | inl again ↦
              rw (again, sym step.2 ∙ again)
                (retry_loop-decider left (wait * 2) (sleep wait (record w { network = n }))
                  ∙ ap (λ answers. suc (decider fields.file answers n.asked left)) step.1
                  ∙ ap (λ asked. suc (decider fields.file w.network.answers asked left)) step.0)
        ]

  -- The answer of a call whose request ended so: what it threw, or the response decoded.
  abbrev pub answer_of : Bool → Result (HttpResponse Double) → Result (Json Double)
  answer_of ctx (err e) = err e
  answer_of ctx (ok resp) = (decode_or_throw P resp ctx).0

  decoded-answer_of :
      (ctx : Bool) (r : Result (HttpResponse Double) × World)
      → (decoded P C ctx r).0 ≡ answer_of ctx r.0
  unfolding decoded
  decoded-answer_of ctx (err e, w) = refl
  decoded-answer_of ctx (ok resp, w) = refl

  report-result :
      (c : AudD) (method url : Text) (start : ℕ) (r : Result (HttpResponse Double) × World)
      → (report P C c method url start r).0 ≡ r.0
  unfolding report
  report-result c method url start (err e, w) = refl
  report-result c method url start (ok resp, w) = refl

  -- Events, the clock, the sleeps and the contents of the form do not matter.
  abbrev pub metered_answer : AudD → Option FileField → Network → Result (Json Double)
  metered_answer c file n = answer_of false (
      transfer_end file
        (n.answers (decider file n.answers n.asked (attempts c.config.max_attempts - 1))))

  pub metered_call-answer :
      (c : AudD) (http : HttpClient) (method url : Text) (fields : FormFields) (w : World)
      → (metered_call P C c http method url fields w).0 ≡ metered_answer c fields.file w.network
  unfolding metered_call retry_on_connection_error
  metered_call-answer c http method url fields w =
      let begun = emit_event c (event_of P C Kind.request method url [] (pos 0) 0) (read_clock w) in
      let left = attempts c.config.max_attempts - 1 in
      let tried =
        retry_on_connection_error sleep (on_network (post_form P C http url fields)) pre_upload_only
          c.config.max_attempts c.config.backoff_factor begun in
      decoded-answer_of false (report P C c method url (now w) tried)
      ∙ ap (answer_of false) (
          report-result c method url (now w) tried
          ∙ retry_loop-decisive http url fields left c.config.backoff_factor begun
          ∙ ap
              (λ n.
                transfer_end fields.file (n.answers (decider fields.file n.answers n.asked left)))
              (emit_event-network P C c _ (read_clock w)))

  abbrev pub read_as : {A : Type 0} → (Json Double → A) → Result (Json Double) → Result A
  read_as f (err e) = err e
  read_as f (ok body) = ok (f body)

  then_read-read_as :
      {A : Type 0} (f : Json Double → A) (r : Result (Json Double) × World)
      → (then_read P C f r).0 ≡ read_as f r.0
  then_read-read_as f (err e, w) = refl
  then_read-read_as f (ok body, w) = refl

  -- The result of a call on a source: that of its preparation, or what is read of the answer.
  abbrev pub source_answer :
      {A : Type 0} → (Json Double → A) → AudD → Network → Result FormFields → Result A
  source_answer f c n (err e) = err e
  source_answer f c n (ok fields) = read_as f (metered_answer c fields.file n)

  metered_call-decider :
      (c : AudD) (http : HttpClient) (method url : Text) (fields : FormFields) (w : World)
      → (metered_call P C c http method url fields w).1.network.asked
        ≡ suc (
            decider fields.file w.network.answers w.network.asked
              (attempts c.config.max_attempts - 1))
  unfolding metered_call retry_on_connection_error
  metered_call-decider c http method url fields w =
      let begun = emit_event c (event_of P C Kind.request method url [] (pos 0) 0) (read_clock w) in
      let left = attempts c.config.max_attempts - 1 in
      let tried =
        retry_on_connection_error sleep (on_network (post_form P C http url fields)) pre_upload_only
          c.config.max_attempts c.config.backoff_factor begun in
      let told = report P C c method url (now w) tried in
      ap (λ n. n.asked)
        ((decoded-keeps P C false told.0 told.1).0
          ∙ report-network P C c method url (now w) tried.0 tried.1)
      ∙ retry_loop-decider http url fields left c.config.backoff_factor begun
      ∙ ap (λ n. suc (decider fields.file n.answers n.asked left))
          (emit_event-network P C c _ (read_clock w))

  -- A refused source leaves the world as it was; behind a call the deciding transfer was the last one.
  abbrev pub Decides : AudD → Result FormFields → World → World → Type 0
  Decides c (err e) w v = v ≡ w
  Decides c (ok fields) w v =
      v.network.asked
      ≡ suc (
          decider fields.file w.network.answers w.network.asked
            (attempts c.config.max_attempts - 1))

  then_read-asked :
      {A : Type 0} (f : Json Double → A) (r : Result (Json Double) × World)
      → (then_read P C f r).1.network.asked ≡ r.1.network.asked
  then_read-asked f (err e, w) = refl
  then_read-asked f (ok body, w) = refl

  -- What both recognitions return, on every branch: the refusal of the source, without a transfer and with all
  -- as it was, or else what one transfer gives, its exception or its decoded and parsed answer. That transfer
  -- is the first that does not end in front of its upload, by its code or else by the probes, or the last of
  -- the configured attempts, and none follows it; the transfers before it, the hook, the clock and the options
  -- do not change what it gives.
  pub recognitions-source_answer :
      (opens : Text → Bool) (c : AudD) (source : Source) (opts : RecognizeOptions)
      (enterprise_opts : EnterpriseOptions) (w : World)
      → let prepared = prepare_source opens not_a_source source in
        ((recognize P C opens c source opts w).0
          ≡ source_answer (recognition_of P C) c w.network prepared)
        × ((recognize_enterprise P C opens c source enterprise_opts w).0
            ≡ source_answer (matches_of P C) c w.network prepared)
        × Decides c prepared w (recognize P C opens c source opts w).1
        × Decides c prepared w (recognize_enterprise P C opens c source enterprise_opts w).1
  unfolding recognize recognize_enterprise
  recognitions-source_answer opens c source opts enterprise_opts w =
      elim (Result-cases (prepare_source opens not_a_source source)) [
        | inl (fields, e) ↦
            let plain = apply_recognize_opts fields opts in
            let long = apply_enterprise_opts fields enterprise_opts in
            let standard : Text = api_base ++ utf8 "/" in
            let enterprise : Text = enterprise_base ++ utf8 "/" in
            rw (recognize, recognize_enterprise, e)
              (
                then_read-read_as (recognition_of P C) _
                    ∙ ap (read_as (recognition_of P C))
                        (metered_call-answer c c.standard_http (utf8 "recognize") standard plain w),
                then_read-read_as (matches_of P C) _
                    ∙ ap (read_as (matches_of P C)) (
                        metered_call-answer c c.enterprise_http (utf8 "recognize_enterprise")
                          enterprise long w),
                then_read-asked (recognition_of P C) _
                    ∙ metered_call-decider c c.standard_http (utf8 "recognize") standard plain w,
                then_read-asked (matches_of P C) _
                    ∙ metered_call-decider c c.enterprise_http (utf8 "recognize_enterprise")
                        enterprise long w,
              )
        | inr (x, e) ↦ rw (recognize, recognize_enterprise, e) (refl, refl, refl, refl)
      ]
