-- ===== src/Client/Throws.antt =====
-- What the calls of src/client.cpp and the sub-clients may throw.
use audd_cpp.Prelude.{
  ℕ, zero, suc, ◌*◌, ◌-◌, ◌||◌, ◌&&◌, not, ◌++◌, ◌≡◌, refl, sym, ◌∙◌, Bool, true, false, Option,
  none, some, Bool-cases, if◌then◌else◌, inl, inr,
}
use audd_cpp.Prelude.Int.{ℤ, pos, ◌==ℤ◌}
use audd_cpp.Prelude.Text.{Text, utf8}
use audd_cpp.Prelude.Dict.{Dict}
use audd_cpp.Json.{Json, is_null}
use audd_cpp.Platform.{Platform}
use audd_cpp.Error.{Exception, audd, invalid_argument, Result, ok, err, connection_error}
use audd_cpp.Retry.{
  pre_upload_only, RetryGate, Exec, retryable, attempts, retry_loop, retry_on_connection_error,
}
use audd_cpp.Http.{
  HttpClient, HttpResponse, FormFields, Network, post_form, get, perform, attach_fails, Request,
  response_of,
}
use audd_cpp.Http.Transport.{Curl, Transfer, is_ok}
use audd_cpp.Response.{
  raise_from_error_response, decode_status, decode_object, decode_or_throw, error_code_of,
  strip_warning,
}
use audd_cpp.Client.{AudD, World, sleep, on_network, decoded, internal_post_form}
use audd_cpp.Client.Recognize.{report, metered_call, then_read}

abbrev pub is_audd : Exception → Bool
is_audd (audd e) = true
is_audd (invalid_argument what) = false

-- A result, or an exception below `AudDError`.
unfoldable pub is_library {ℓ} : {A : Type ℓ} → Result A → Bool
is_library (ok a) = true
is_library (err e) = is_audd e

pub err-is_library {ℓ} : (A : Type ℓ) (e : Exception) → is_library {A = A} (err e) ≡ is_audd e
unfolding is_library
err-is_library A e = refl

module _ {ℓ} {A : Type ℓ} where
  pub ok-is_library : (a : A) → is_library (ok a) ≡ true
  unfolding is_library
  ok-is_library a = refl

  pub if-is_library :
      (b : Bool) (x y : Result A)
      → is_library x ≡ true
      → is_library y ≡ true
      → is_library (if b then x else y) ≡ true
  if-is_library true x y h k = h
  if-is_library false x y h k = k

  pub first-is_library {κ} :
      {B : Type κ} (b : Bool) (x y : Result A × B)
      → is_library x.0 ≡ true
      → is_library y.0 ≡ true
      → is_library (if b then x else y).0 ≡ true
  first-is_library true x y h k = h
  first-is_library false x y h k = k

module _ {ℓ} {S A : Type ℓ} (sleep : ℕ → S → S) (f : Exec S A) (gate : RetryGate)
    (fine : (s : S) → is_library (f s).0 ≡ true) where
  retry_loop-is_library :
      (left wait : ℕ) (s : S) → is_library (retry_loop sleep f gate left wait s).0 ≡ true
  unfolding retry_loop
  retry_loop-is_library zero wait s = fine s
  retry_loop-is_library (suc left) wait s = elim (Bool-cases (retryable gate (f s).0)) [
    | inr final ↦ rw final (fine s)
    | inl again ↦ rw again (retry_loop-is_library left (wait * 2) (sleep wait (f s).1))
  ]

  pub retry-is_library :
      (max_attempts : ℤ) (backoff : ℕ) (s : S)
      → is_library (retry_on_connection_error sleep f gate max_attempts backoff s).0 ≡ true
  unfolding retry_on_connection_error
  retry-is_library max_attempts backoff s =
      retry_loop-is_library (attempts max_attempts - 1) backoff s

module _ (P : Platform) (C : Curl) where
  open P use {Double}

  perform-is_library :
      (request : Request) (t : Transfer) (n : Network)
      → is_library (perform P C request t n).0 ≡ true
  unfolding perform
  perform-is_library request t n =
      first-is_library (is_ok t.code) _ _ (ok-is_library (response_of P C t)) (err-is_library _ _)

  attached-is_library :
      (request : Request) (t : Transfer) (n : Network) (path : Option Text)
      → let r : Result (HttpResponse Double) × Network = elim path [
        | some path ↦
            (err (audd (connection_error (utf8 "failed to attach file: " ++ path) true)), n)
        | none ↦ perform P C request t n
      ] in
        is_library r.0 ≡ true
  attached-is_library request t n none = perform-is_library request t n
  attached-is_library request t n (some path) = err-is_library _ _

  pub post_form-is_library :
      (client : HttpClient) (url : Text) (fields : FormFields) (n : Network)
      → is_library (post_form P C client url fields n).0 ≡ true
  unfolding post_form
  post_form-is_library client url fields n =
      first-is_library (not (n.answers n.asked).easy_init) _ _ (err-is_library _ _) (
        attached-is_library _ (n.answers n.asked) _
          (attach_fails P C fields.file (n.answers n.asked)))

  pub get-is_library :
      (client : HttpClient) (url : Text) (params : Dict Text) (n : Network)
      → is_library (get P C client url params n).0 ≡ true
  unfolding get
  get-is_library client url params n =
      first-is_library (not (n.answers n.asked).easy_init) _ _ (err-is_library _ _)
        (perform-is_library _ (n.answers n.asked) _)

  raise-is_audd :
      (body : Json Double) (status : ℤ) (id : Text) (ctx : Bool)
      → is_audd (raise_from_error_response P body status id ctx) ≡ true
  unfolding raise_from_error_response
  raise-is_audd body status id ctx =
      let code = error_code_of P body in
      elim (Bool-cases (ctx && (code ==ℤ pos 904 || code ==ℤ pos 905))) [
        | inl e ↦ rw e refl
        | inr e ↦ rw e refl
      ]

  decode_status-is_library :
      (resp : HttpResponse Double) (body : Json Double) (ctx : Bool)
      → is_library (decode_status P resp body ctx) ≡ true
  unfolding decode_status
  decode_status-is_library resp body ctx =
      if-is_library _ _ _
        (err-is_library _ _ ∙ raise-is_audd body resp.http_status resp.request_id ctx)
        (if-is_library _ _ _ (ok-is_library body) (err-is_library _ _))

  decode_object-is_library :
      (resp : HttpResponse Double) (ctx : Bool) (o : Option (Json Double))
      → is_library (decode_object P resp ctx o).0 ≡ true
  unfolding decode_object
  decode_object-is_library resp ctx none = decode_status-is_library resp resp.json_body ctx
  decode_object-is_library resp ctx (some e) =
      decode_status-is_library resp (strip_warning P resp.json_body) ctx

  pub decode_or_throw-is_library :
      (resp : HttpResponse Double) (ctx : Bool) → is_library (decode_or_throw P resp ctx).0 ≡ true
  unfolding decode_or_throw
  decode_or_throw-is_library resp ctx =
      first-is_library (is_null resp.json_body) _ _
        (first-is_library _ _ _ (err-is_library _ _) (err-is_library _ _))
        (first-is_library _ _ _ (decode_object-is_library resp ctx _) (err-is_library _ _))

  pub decoded-is_library :
      (ctx : Bool) (r : Result (HttpResponse Double) × World)
      → is_library r.0 ≡ true
      → is_library (decoded P C ctx r).0 ≡ true
  unfolding decoded
  decoded-is_library ctx (ok resp, w) h = decode_or_throw-is_library resp ctx
  decoded-is_library ctx (err e, w) h = err-is_library _ e ∙ sym (err-is_library _ e) ∙ h

  pub then_read-is_library :
      {A : Type 0} (f : Json Double → A) (r : Result (Json Double) × World)
      → is_library (then_read P C f r).0 ≡ is_library r.0
  then_read-is_library f (err e, w) = err-is_library _ e ∙ sym (err-is_library _ e)
  then_read-is_library f (ok body, w) = ok-is_library (f body) ∙ sym (ok-is_library body)

  pub report-is_library :
      (c : AudD) (method url : Text) (start : ℕ) (r : Result (HttpResponse Double) × World)
      → is_library (report P C c method url start r).0 ≡ is_library r.0
  unfolding report
  report-is_library c method url start (err e, w) = refl
  report-is_library c method url start (ok resp, w) = refl

  pub internal_post_form-is_library :
      (c : AudD) (url : Text) (fields : FormFields) (ctx : Bool) (max_attempts : ℤ)
      (gate : RetryGate) (w : World)
      → is_library (internal_post_form P C c url fields ctx max_attempts gate w).0 ≡ true
  unfolding internal_post_form
  internal_post_form-is_library c url fields ctx max_attempts gate w = decoded-is_library ctx _ (
      retry-is_library sleep (on_network (post_form P C c.standard_http url fields)) gate
        (λ v. post_form-is_library c.standard_http url fields v.network) max_attempts
        c.config.backoff_factor w)

  pub metered_call-is_library :
      (c : AudD) (http : HttpClient) (method url : Text) (fields : FormFields) (w : World)
      → is_library (metered_call P C c http method url fields w).0 ≡ true
  unfolding metered_call
  metered_call-is_library c http method url fields w = decoded-is_library false _ (
      report-is_library c method url _ _
      ∙ retry-is_library sleep (on_network (post_form P C http url fields)) pre_upload_only
          (λ v. post_form-is_library http url fields v.network) c.config.max_attempts
          c.config.backoff_factor _)
