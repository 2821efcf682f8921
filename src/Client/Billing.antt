-- ===== src/Client/Billing.antt =====
-- Which transfers the retries of src/client.cpp repeat. An upload that may have reached the server may be
-- metered, so only a transfer that failed before it may be tried again.
use audd_cpp.Prelude.{
  ℕ, zero, suc, ◌+◌, ◌*◌, ◌-◌, ◌≤◌, ◌≡◌, refl, ap, sym, ◌∙◌, Bool, true, false, not, ◌&&◌, ◌||◌,
  Option, arith, Bool-cases, Option-cases, inl, inr,
}
use audd_cpp.Prelude.Int.{ℤ, pos, wrap32, ◌==ℤ◌}
use audd_cpp.Prelude.Text.{Text}
use audd_cpp.Platform.{Platform}
use audd_cpp.Error.{connection_error}
use audd_cpp.Recognition.{has_value}
use audd_cpp.Retry.{pre_upload_only, retryable, attempts, retry_loop, retry_on_connection_error}
use audd_cpp.Http.{HttpClient, FormFields, FileField, Network, post_form, perform, attach_fails}
use audd_cpp.Http.Transport.{
  Curl, Transfer, CurlCode, is_ok, probed, failure_is_pre_upload, perform_failed_before_upload,
}
use audd_cpp.Client.{World, sleep, on_network}

-- What libcurl documents of its codes: these are failures to parse the URL or to connect, so no request has
-- been sent.
abbrev pub is_connecting : CurlCode → Bool
is_connecting CurlCode.unsupported_protocol = true
is_connecting CurlCode.url_malformat = true
is_connecting CurlCode.couldnt_resolve_proxy = true
is_connecting CurlCode.couldnt_resolve_host = true
is_connecting CurlCode.couldnt_connect = true
is_connecting CurlCode.ssl_connect_error = true
is_connecting CurlCode.peer_failed_verification = true
is_connecting CurlCode.ssl_cipher = true
is_connecting CurlCode.ssl_cacert_badfile = true
is_connecting CurlCode.interface_failed = true
is_connecting _ = false

-- No probe shows a byte that was sent, or a status line that came.
abbrev pub is_silent : Transfer → Bool
is_silent t = probed t.uploaded ==ℤ pos 0 && wrap32 t.status ==ℤ pos 0

early_lem :
    (code : CurlCode) (uploaded status : ℤ)
    → failure_is_pre_upload code uploaded status
      ≡ (is_connecting code || (uploaded ==ℤ pos 0 && status ==ℤ pos 0))
unfolding failure_is_pre_upload
early_lem CurlCode.unsupported_protocol u s = refl
early_lem CurlCode.url_malformat u s = refl
early_lem CurlCode.couldnt_resolve_proxy u s = refl
early_lem CurlCode.couldnt_resolve_host u s = refl
early_lem CurlCode.couldnt_connect u s = refl
early_lem CurlCode.ssl_connect_error u s = refl
early_lem CurlCode.peer_failed_verification u s = refl
early_lem CurlCode.ssl_cipher u s = refl
early_lem CurlCode.ssl_cacert_badfile u s = refl
early_lem CurlCode.interface_failed u s = refl
early_lem _ u s = refl

classified : (t : Transfer) → perform_failed_before_upload t ≡ (is_connecting t.code || is_silent t)
unfolding perform_failed_before_upload
classified t = early_lem t.code (probed t.uploaded) (wrap32 t.status)

-- `uploads t` is whether a byte of the body of the transfer may have reached the server: then there was a
-- handle, the file, if there is one, was attached, the connection had been made, and the probe shows bytes.
pub record IsUploading (uploads : Transfer → Bool) : Type 0 where
  pub handled : (t : Transfer) → uploads t ≡ true → t.easy_init ≡ true
  pub attached : (t : Transfer) → uploads t ≡ true → t.attached ≡ true
  pub connected : (t : Transfer) → uploads t ≡ true → is_connecting t.code ≡ false
  pub counted : (t : Transfer) → uploads t ≡ true → (probed t.uploaded ==ℤ pos 0) ≡ false

module _ (P : Platform) (C : Curl) where
  open P use {Double}

  -- A transfer that ends in front of the upload: no handle is made, the file is not attached, or the code
  -- says so, or else the probes.
  abbrev pub is_harmless : Option FileField → Transfer → Bool
  is_harmless file t =
      not t.easy_init
      || has_value (attach_fails P C file t)
      || (not (is_ok t.code) && (is_connecting t.code || is_silent t))

  pub post_form-network :
      (client : HttpClient) (url : Text) (fields : FormFields) (n : Network)
      → let (r, m) = post_form P C client url fields n in
        (m.asked ≡ suc n.asked)
        × (m.answers ≡ n.answers)
        × (retryable pre_upload_only r ≡ is_harmless fields.file (n.answers n.asked))
  unfolding post_form perform connection_error
  post_form-network client url fields n =
      let t = n.answers n.asked in
      elim (Bool-cases t.easy_init) [
        | inr e ↦ rw e (omega arith, refl, refl)
        | inl e ↦ elim (Option-cases (attach_fails P C fields.file t)) [
          | inr (path, a) ↦ rw (a, e) (omega arith, refl, refl)
          | inl a ↦ elim (Bool-cases (is_ok t.code)) [
            | inl k ↦ rw (a, k, e) (omega arith, refl, refl)
            | inr k ↦ rw (a, k, e) (omega arith, refl, classified t)
          ]
        ]
      ]

  abbrev pub all_harmless : Option FileField → (ℕ → Transfer) → ℕ → ℕ → Bool
  all_harmless file answers first zero = true
  all_harmless file answers first (suc k) =
      is_harmless file (answers first) && all_harmless file answers (suc first) k

  -- The transfers between `n` and `m`: at most `left` that were harmless, and one more.
  pub record IsCareful (file : Option FileField) (left : ℕ) (n m : Network) : Type 0 where
    pub repeated : ℕ
    pub few : repeated ≤ left
    pub total : m.asked ≡ n.asked + suc repeated
    pub harmless : all_harmless file n.answers n.asked repeated ≡ true
    pub same : m.answers ≡ n.answers

  module _ (http : HttpClient) (url : Text) (fields : FormFields) where
    once-IsCareful :
        (left : ℕ) (n : Network) → IsCareful fields.file left n (post_form P C http url fields n).1
    once-IsCareful left n =
        let step = post_form-network http url fields n in
        record {
          repeated = 0;
          few = omega arith;
          total = omega (arith, step.0);
          harmless = refl;
          same = step.1;
        }

    retry_loop-IsCareful :
        (left wait : ℕ) (w : World)
        → IsCareful fields.file left w.network
            (retry_loop sleep
              (on_network (post_form P C http url fields))
              pre_upload_only
              left
              wait
              w).1.network
    unfolding retry_loop
    retry_loop-IsCareful zero wait w = once-IsCareful 0 w.network
    retry_loop-IsCareful (suc left) wait w =
        let n = (post_form P C http url fields w.network).1 in
        let step = post_form-network http url fields w.network in
        elim (Bool-cases (retryable pre_upload_only (post_form P C http url fields w.network).0)) [
          | inr final ↦ rw final (once-IsCareful (suc left) w.network)
          | inl again ↦
              let ih =
                retry_loop-IsCareful left (wait * 2) (sleep wait (record w { network = n })) in
              let rest : all_harmless fields.file w.network.answers (suc w.network.asked)
                    ih.repeated
                  ≡ true =
                ap (λ a. all_harmless fields.file a (suc w.network.asked) ih.repeated) (sym step.1)
                ∙ ap (λ i. all_harmless fields.file n.answers i ih.repeated) (sym step.0)
                ∙ ih.harmless in
              rw again (record {
                repeated = suc ih.repeated;
                few = omega (arith, ih.few);
                total = ih.total ∙ omega (arith, step.0);
                harmless =
                    ap
                      (λ b.
                        b
                        && all_harmless fields.file w.network.answers (suc w.network.asked)
                            ih.repeated)
                      (sym step.2 ∙ again)
                    ∙ rest;
                same = ih.same ∙ step.1;
              })
        ]

    -- Under the gate for uploads the helper makes at least one transfer and at most `attempts max_attempts`,
    -- and every transfer but the last was harmless.
    pub retry-IsCareful :
        (max_attempts : ℤ) (backoff : ℕ) (w : World)
        → IsCareful fields.file
            (attempts max_attempts - 1)
            w.network
            (retry_on_connection_error sleep
              (on_network (post_form P C http url fields))
              pre_upload_only
              max_attempts
              backoff
              w).1.network
    unfolding retry_on_connection_error
    retry-IsCareful max_attempts backoff w =
        retry_loop-IsCareful (attempts max_attempts - 1) backoff w
