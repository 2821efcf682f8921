-- ===== src/SubClients/Laws.antt =====
-- The preflight of src/streams.cpp and the upload of src/custom_catalog.cpp.
use audd_cpp.Prelude.{
  ℕ, ◌+◌, ◌-◌, ◌≡◌, ◌⊎◌, refl, ap, sym, ◌∙◌, Bool, true, false, Option, none, some, ◌++◌, arith,
  Bool-cases, inl, inr,
}
use audd_cpp.Prelude.Int.{ℤ, pos, ◌==ℤ◌}
use audd_cpp.Prelude.Text.{Text, utf8}
use audd_cpp.Prelude.Dict.{insert}
use audd_cpp.Prelude.Decimal.{to_string}
use audd_cpp.Platform.{Platform}
use audd_cpp.Json.{Json}
use audd_cpp.Error.{
  Exception, Result, Result-cases, ok, err, audd, api, custom_catalog_access, ApiError, api_error,
  connection, serialization, missing_api_token, invalid_argument,
}
use audd_cpp.Retry.{pre_upload_only, attempts, retry_on_connection_error}
use audd_cpp.Http.{FormFields, post_form}
use audd_cpp.Http.Transport.{Curl}
use audd_cpp.Source.{Source, prepare_source_for_upload}
use audd_cpp.Client.{AudD, World, sleep, on_network, internal_post_form}
use audd_cpp.Client.Recognize.{api_base, then_read}
use audd_cpp.Client.Billing.{IsCareful, retry-IsCareful}
use audd_cpp.Client.Events.{decoded-keeps}
use audd_cpp.SubClients.{add_to_catalog, translate_preflight, translated}

module _ (P : Platform) (C : Curl) where
  open P use {Double}

  then_read-keeps :
      {A : Type 0} (f : Json Double → A) (r : Result (Json Double)) (w : World)
      → (then_read P C f (r, w)).1 ≡ w
  then_read-keeps f (ok body) w = refl
  then_read-keeps f (err e) w = refl

  -- A request under the gate for uploads, of any of the sub-clients and of `add`: all its transfers but the
  -- last had failed before anything was uploaded, and there are at most as many as the attempts.
  pub internal_post_form-IsCareful :
      (c : AudD) (url : Text) (fields : FormFields) (ctx : Bool) (max_attempts : ℤ) (w : World)
      → IsCareful P C fields.file
          (attempts max_attempts - 1)
          w.network
          (internal_post_form P C c url fields ctx max_attempts pre_upload_only w).1.network
  unfolding internal_post_form
  internal_post_form-IsCareful c url fields ctx max_attempts w =
      let tried =
        retry_on_connection_error sleep (on_network (post_form P C c.standard_http url fields))
          pre_upload_only max_attempts c.config.backoff_factor w in
      rw ((decoded-keeps P C ctx tried.0 tried.1).0)
        (retry-IsCareful P C c.standard_http url fields max_attempts c.config.backoff_factor w)

  abbrev pub transfers_of {ℓ} : {A : Type ℓ} → Result A → ℕ
  transfers_of (ok a) = 1
  transfers_of (err e) = 0

  -- Adding to the catalogue, which is metered, makes exactly one transfer, however many attempts are
  -- configured and whatever the network does; none if the source is refused.
  pub add_to_catalog-once :
      (opens : Text → Bool) (c : AudD) (audio_id : ℤ) (source : Source) (w : World)
      → (add_to_catalog P C opens c audio_id source w).1.network.asked
        ≡ w.network.asked + transfers_of (prepare_source_for_upload opens source)
  unfolding add_to_catalog
  add_to_catalog-once opens c audio_id source w =
      elim (Result-cases (prepare_source_for_upload opens source)) [
        | inr (e, refused) ↦ rw (add_to_catalog, refused) (omega arith)
        | inl (fields, ready) ↦
            let full = record fields {
              form = insert "audio_id" (to_string audio_id) fields.form;
            } in
            let url : Text = api_base ++ utf8 "/upload/" in
            let careful = internal_post_form-IsCareful c url full true (pos 1) w in
            let out = internal_post_form P C c url full true (pos 1) pre_upload_only w in
            rw (add_to_catalog, ready, then_read-keeps (λ body. tt {0}) out.0 out.1)
              (omega (arith, careful.few, careful.total))
      ]

-- The fields of an error of the API, of either class.
abbrev pub api_of : Exception → Option ApiError
api_of (audd (api e)) = some e
api_of (audd (custom_catalog_access e server)) = some e
api_of _ = none

abbrev pub code_in : Option ApiError → Option ℤ
code_in none = none
code_in (some a) = some a.error_code

abbrev pub origin_in : Option ApiError → Option (ℤ × Text)
origin_in none = none
origin_in (some a) = some (a.http_status, a.request_id)

abbrev pub code_of : Exception → Option ℤ
code_of e = code_in (api_of e)

abbrev pub origin_of : Exception → Option (ℤ × Text)
origin_of e = origin_in (api_of e)

abbrev pub is_code_19 : Option ℤ → Bool
is_code_19 none = false
is_code_19 (some code) = code ==ℤ pos 19

translated_lem :
    (a : ApiError) (e : Exception)
    → api_of e ≡ some a
    → let t = translated a.error_code a.http_status a.request_id e in
      (is_code_19 (code_of t) ≡ false)
      × (origin_of t ≡ origin_of e)
      × ((is_code_19 (code_of e) ≡ true) ⊎ (t ≡ e))
unfolding api_error
translated_lem a e h = elim (Bool-cases (a.error_code ==ℤ pos 19)) [
  | inl there ↦
      rw there (refl, sym (ap origin_in h), inl (ap (λ o. is_code_19 (code_in o)) h ∙ there))
  | inr other ↦ rw other (ap (λ o. is_code_19 (code_in o)) h ∙ other, refl, inr refl)
]

-- Whatever the preflight throws on has not the code 19 of an account without a callback URL; it keeps the
-- status and the request id, and an exception that had another code, or none, is thrown on as it is.
pub translate_preflight_lem :
    (e : Exception)
    → (is_code_19 (code_of (translate_preflight e)) ≡ false)
      × (origin_of (translate_preflight e) ≡ origin_of e)
      × ((is_code_19 (code_of e) ≡ true) ⊎ (translate_preflight e ≡ e))
unfolding translate_preflight
translate_preflight_lem (audd (api a)) = translated_lem a (audd (api a)) refl
translate_preflight_lem (audd (custom_catalog_access a server)) =
    translated_lem a (audd (custom_catalog_access a server)) refl
translate_preflight_lem (audd (connection what before)) = (refl, refl, inr refl)
translate_preflight_lem (audd (serialization what raw)) = (refl, refl, inr refl)
translate_preflight_lem (audd missing_api_token) = (refl, refl, inr refl)
translate_preflight_lem (invalid_argument what) = (refl, refl, inr refl)
