-- ===== src/SubClients.antt =====
-- The sub-clients: src/streams.cpp, src/custom_catalog.cpp and src/advanced.cpp.
pub mod Laws
pub mod Subscribe
pub mod Throws
mod Tests
use audd_cpp.Prelude.{
  ℕ, Bool, true, false, Option, none, some, List, [], ◌∷◌, ◌++◌, map, String, if◌then◌else◌,
}
use audd_cpp.Prelude.Int.{ℤ, pos, ◌==ℤ◌}
use audd_cpp.Prelude.Text.{Text, utf8, is_empty}
use audd_cpp.Prelude.Dict.{Dict, insert, insert_all}
use audd_cpp.Prelude.Decimal.{to_string}
use audd_cpp.Json.{Json, str, find}
use audd_cpp.Platform.{Platform}
use audd_cpp.Error.{Exception, Result, ok, err, audd, api, api_error, custom_catalog_access}
use audd_cpp.Retry.{Exec, all_connection_errors, pre_upload_only, RetryGate}
use audd_cpp.Http.{FormFields, no_fields}
use audd_cpp.Http.Transport.{Curl}
use audd_cpp.Recognition.{LyricsResult, Stream}
use audd_cpp.Parse.{parse_stream, parse_lyrics, result_array_or_null}
use audd_cpp.Source.{Source, prepare_source_for_upload}
use audd_cpp.Url.{add_return_to_url}
use audd_cpp.Client.{AudD, World, internal_post_form}
use audd_cpp.Client.Recognize.{api_base, then_read}

pub record SetCallbackUrlOptions : Type 0 where
  pub return_metadata : List Text
  pub extra_parameters : Dict Text

pub record AddStreamRequest : Type 0 where
  pub url : Text
  pub radio_id : ℤ
  pub callbacks : Text
  pub extra_parameters : Dict Text

abbrev pub form_fields : Dict Text → FormFields
form_fields form = record no_fields { form = form }

abbrev pub endpoint : Text → Text
endpoint method = api_base ++ (utf8 "/" ++ (method ++ utf8 "/"))

unfoldable pub add_form : AddStreamRequest → Dict Text
unfolding insert_all to_string
add_form req =
    let named =
      insert "radio_id" (to_string req.radio_id)
        (insert "url" req.url (insert_all req.extra_parameters [])) in
    if is_empty req.callbacks then named else insert "callbacks" req.callbacks named

abbrev pub preflight_hint : Text
preflight_hint =
    utf8
      "Longpoll won't deliver events because no callback URL is configured for this account. Set one first via client.streams().set_callback_url(url, opts) — `https://audd.tech/empty/` is fine if you only want longpolling and don't need a real receiver. To skip this check, set LongpollOptions.skip_callback_check = true."

-- The handler around the preflight: only `AudDApiError`, with its subclass, is caught.
abbrev pub translated : ℤ → ℤ → Text → Exception → Exception
translated code status id e =
    if code ==ℤ pos 19 then audd (api (api_error (pos 0) preflight_hint status id)) else e

unfoldable pub translate_preflight : Exception → Exception
unfolding api_error
translate_preflight (audd (api e)) =
    translated e.error_code e.http_status e.request_id (audd (api e))
translate_preflight (audd (custom_catalog_access e server)) =
    translated e.error_code e.http_status e.request_id (audd (custom_catalog_access e server))
translate_preflight e = e

module _ (P : Platform) (C : Curl) where
  open P use {Double}

  -- `post_form(url, fields)` with the default gate and the configured attempts.
  unfoldable pub post_mutating : AudD → Text → FormFields → Exec World (Json Double)
  unfolding internal_post_form
  post_mutating c method fields =
      internal_post_form P C c (endpoint method) fields false c.config.max_attempts pre_upload_only

  unfoldable pub post_reading : AudD → Text → Exec World (Json Double)
  unfolding internal_post_form
  post_reading c method =
      internal_post_form P C c (endpoint method) no_fields false c.config.max_attempts
        all_connection_errors

  abbrev pub done : Result (Json Double) × World → Result (Unit {0}) × World
  done = then_read P C (λ body. tt)

  unfoldable pub set_callback_url : AudD → Text → SetCallbackUrlOptions → Exec World (Unit {0})
  unfolding add_return_to_url insert_all post_mutating
  set_callback_url c url opts w = elim (add_return_to_url url opts.return_metadata) [
    | err e ↦ (err e, w)
    | ok final_url ↦ done (
        post_mutating c (utf8 "setCallbackUrl")
          (form_fields (insert "url" final_url (insert_all opts.extra_parameters []))) w)
  ]

  unfoldable pub url_of : Json Double → Text
  unfolding find
  url_of body = elim (find body "result") [ some (str s) ↦ s | _ ↦ [] ]

  unfoldable pub get_callback_url : AudD → Exec World Text
  unfolding post_reading url_of
  get_callback_url c w = then_read P C url_of (post_reading c (utf8 "getCallbackUrl") w)

  unfoldable pub add_stream : AudD → AddStreamRequest → Exec World (Unit {0})
  unfolding add_form post_mutating
  add_stream c req w = done (post_mutating c (utf8 "addStream") (form_fields (add_form req)) w)

  unfoldable pub set_url : AudD → ℤ → Text → Exec World (Unit {0})
  unfolding post_mutating to_string
  set_url c radio_id url w = done (
      post_mutating c (utf8 "setStreamUrl")
        (form_fields (insert "url" url (insert "radio_id" (to_string radio_id) []))) w)

  unfoldable pub del : AudD → ℤ → Exec World (Unit {0})
  unfolding post_mutating to_string
  del c radio_id w = done (
      post_mutating c (utf8 "deleteStream")
        (form_fields (insert "radio_id" (to_string radio_id) [])) w)

  abbrev pub each_of {ℓ} : {A : Type ℓ} → (Json Double → A) → Json Double → List A
  each_of f body = elim (result_array_or_null P body) [ none ↦ [] | some vs ↦ map f vs ]

  unfoldable pub list_streams : AudD → Exec World (List (Stream Double))
  unfolding post_reading result_array_or_null
  list_streams c w = then_read P C (each_of (parse_stream P)) (post_reading c (utf8 "getStreams") w)

  -- The preflight of `longpoll`; `none` lets the subscription start.
  unfoldable pub preflight : Bool → AudD → World → Option Exception × World
  unfolding get_callback_url translate_preflight
  preflight true c w = (none, w)
  preflight false c w =
      let (r, w') = get_callback_url c w in
      (elim r [ ok url ↦ none | err e ↦ some (translate_preflight e) ], w')

  -- `CustomCatalogClient::add`: the context of the catalogue, and one attempt.
  unfoldable pub add_to_catalog : (Text → Bool) → AudD → ℤ → Source → Exec World (Unit {0})
  unfolding prepare_source_for_upload internal_post_form to_string
  add_to_catalog opens c audio_id source w = elim (prepare_source_for_upload opens source) [
    | err e ↦ (err e, w)
    | ok fields ↦ done (
        internal_post_form P C c (api_base ++ utf8 "/upload/")
          (record fields { form = insert "audio_id" (to_string audio_id) fields.form }) true (pos 1)
          pre_upload_only w)
  ]

  unfoldable pub raw_request : AudD → Text → Dict Text → Exec World (Json Double)
  unfolding post_mutating
  raw_request c method params = post_mutating c method (form_fields params)

  unfoldable pub find_lyrics : AudD → Text → Exec World (List (LyricsResult Double))
  unfolding raw_request result_array_or_null
  find_lyrics c query w =
      then_read P C (each_of (parse_lyrics P))
        (raw_request c (utf8 "findLyrics") (insert "q" query []) w)
