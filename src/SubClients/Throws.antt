-- ===== src/SubClients/Throws.antt =====
-- What every call of the client and of its sub-clients may throw: src/client.cpp, src/streams.cpp,
-- src/custom_catalog.cpp and src/advanced.cpp.
use audd_cpp.Prelude.{
  not, ◌||◌, ◌++◌, [], ◌∷◌, ◌≡◌, refl, ◌∙◌, Bool, true, false, none, some, Bool-cases, inl, inr,
  Option, List, arith,
}
use audd_cpp.Prelude.Int.{ℤ, pos}
use audd_cpp.Prelude.Text.{Text, utf8, is_empty}
use audd_cpp.Prelude.Dict.{Dict, insert, insert_all}
use audd_cpp.Prelude.Decimal.{to_string}
use audd_cpp.Json.{Json}
use audd_cpp.Platform.{Platform}
use audd_cpp.Error.{
  Exception, audd, api, custom_catalog_access, connection, serialization, missing_api_token,
  invalid_argument, Result, ok, err,
}
use audd_cpp.Retry.{pre_upload_only, all_connection_errors}
use audd_cpp.Http.{FormFields, no_fields}
use audd_cpp.Http.Transport.{Curl}
use audd_cpp.Parse.{parse_lyrics}
use audd_cpp.Source.{
  Source, plain, source_url, source_file_path, source_bytes, is_http_url, prepare_source,
  prepare_source_for_upload, not_a_source, not_an_upload,
}
use audd_cpp.Url.{add_return_to_url}
use audd_cpp.Client.{AudD, World, set_api_token, internal_post_form}
use audd_cpp.Client.Options.{
  RecognizeOptions, EnterpriseOptions, apply_recognize_opts, apply_enterprise_opts,
}
use audd_cpp.Client.Recognize.{
  api_base, enterprise_base, recognize, recognize_enterprise, recognition_of, matches_of,
  metered_call, then_read,
}
use audd_cpp.Client.Throws.{
  is_audd, is_library, ok-is_library, err-is_library, if-is_library, then_read-is_library,
  internal_post_form-is_library, metered_call-is_library,
}
use audd_cpp.SubClients.{
  SetCallbackUrlOptions, AddStreamRequest, set_callback_url, get_callback_url, add_stream, set_url,
  del, list_streams, add_to_catalog, url_of, raw_request, find_lyrics, post_mutating, post_reading,
  preflight, translate_preflight, endpoint, form_fields, add_form, each_of,
}
use audd_cpp.SubClients.Subscribe.{LongpollOptions, longpoll, start_longpoll}

-- A source that the calls take: a plain one is a URL, or a path that opens.
abbrev pub accepts : (Text → Bool) → Source → Bool
accepts opens (plain s) = is_http_url s || opens s
accepts opens _ = true

prepare_source-is_library :
    (opens : Text → Bool) (refusal : Text → Text) (source : Source)
    → is_library (prepare_source opens refusal source) ≡ accepts opens source
unfolding prepare_source is_library
prepare_source-is_library opens refusal (plain s) = elim (Bool-cases (is_http_url s)) [
  | inl h ↦ rw h refl
  | inr h ↦ elim (Bool-cases (opens s)) [ inl k ↦ rw (h, k) refl | inr k ↦ rw (h, k) refl ]
]
prepare_source-is_library opens refusal (source_url url) = refl
prepare_source-is_library opens refusal (source_file_path path) = refl
prepare_source-is_library opens refusal (source_bytes s) = refl

-- A preflight that lets the subscription start, or refuses it by an exception below `AudDError`.
abbrev is_refusal : Option Exception → Bool
is_refusal none = true
is_refusal (some e) = is_audd e

translated-is_audd : (e : Exception) → is_audd (translate_preflight e) ≡ is_audd e
unfolding translate_preflight
translated-is_audd (audd (api e)) = ground arith
translated-is_audd (audd (custom_catalog_access e server)) = ground arith
translated-is_audd (audd (connection what before)) = refl
translated-is_audd (audd (serialization what raw)) = refl
translated-is_audd (audd missing_api_token) = refl
translated-is_audd (invalid_argument what) = refl

translated-is_refusal :
    (r : Result Text)
    → is_library r ≡ true
    → let o : Option Exception = elim r [ ok url ↦ none | err e ↦ some (translate_preflight e) ] in
      is_refusal o ≡ true
unfolding is_library
translated-is_refusal (ok url) h = refl
translated-is_refusal (err e) h = translated-is_audd e ∙ h

start-is_library :
    {A : Type 0} (p : Option Exception × World) (subscription : A)
    → is_refusal p.0 ≡ true
    → let (refused, after) = p in
      let r : Result A × World = elim refused [
        | some e ↦ (err e, after)
        | none ↦ (ok subscription, after)
      ] in
      is_library r.0 ≡ true
unfolding is_library
start-is_library (none, after) subscription h = refl
start-is_library (some e, after) subscription h = h

module _ (P : Platform) (C : Curl) (c : AudD) (w : World) where
  open P use {Double}

  post_mutating-is_library :
      (method : Text) (fields : FormFields)
      → is_library (post_mutating P C c method fields w).0 ≡ true
  unfolding post_mutating
  post_mutating-is_library method fields =
      internal_post_form-is_library P C c (endpoint method) fields false c.config.max_attempts
        pre_upload_only w

  mutated-is_library :
      {A : Type 0} (f : Json Double → A) (method : Text) (form : Dict Text)
      → is_library (then_read P C f (post_mutating P C c method (form_fields form) w)).0 ≡ true
  mutated-is_library f method form =
      then_read-is_library P C f (post_mutating P C c method (form_fields form) w)
      ∙ post_mutating-is_library method (form_fields form)

  post_reading-is_library : (method : Text) → is_library (post_reading P C c method w).0 ≡ true
  unfolding post_reading
  post_reading-is_library method =
      internal_post_form-is_library P C c (endpoint method) no_fields false c.config.max_attempts
        all_connection_errors w

  on_prepared :
      {A B : Type 0} (f : Json Double → A) (call : B → Result (Json Double) × World)
      (fine : (b : B) → is_library (call b).0 ≡ true) (prepared : Result B)
      → let r : Result A × World = elim prepared [
        | err e ↦ (err e, w)
        | ok b ↦ then_read P C f (call b)
      ] in
        is_library r.0 ≡ is_library prepared
  unfolding is_library
  on_prepared f call fine (err e) = refl
  on_prepared f call fine (ok b) = then_read-is_library P C f (call b) ∙ fine b

  pub recognize-is_library :
      (opens : Text → Bool) (source : Source) (opts : RecognizeOptions)
      → is_library (recognize P C opens c source opts w).0 ≡ accepts opens source
  unfolding recognize
  recognize-is_library opens source opts =
      on_prepared (recognition_of P C)
        (λ fields.
          metered_call P C c c.standard_http (utf8 "recognize") (api_base ++ utf8 "/")
            (apply_recognize_opts fields opts) w)
        (λ fields.
          metered_call-is_library P C c c.standard_http (utf8 "recognize") (api_base ++ utf8 "/")
            (apply_recognize_opts fields opts) w)
        (prepare_source opens not_a_source source)
      ∙ prepare_source-is_library opens not_a_source source

  pub recognize_enterprise-is_library :
      (opens : Text → Bool) (source : Source) (opts : EnterpriseOptions)
      → is_library (recognize_enterprise P C opens c source opts w).0 ≡ accepts opens source
  unfolding recognize_enterprise
  recognize_enterprise-is_library opens source opts =
      on_prepared (matches_of P C)
        (λ fields.
          metered_call P C c c.enterprise_http (utf8 "recognize_enterprise")
            (enterprise_base ++ utf8 "/") (apply_enterprise_opts fields opts) w)
        (λ fields.
          metered_call-is_library P C c c.enterprise_http (utf8 "recognize_enterprise")
            (enterprise_base ++ utf8 "/") (apply_enterprise_opts fields opts) w)
        (prepare_source opens not_a_source source)
      ∙ prepare_source-is_library opens not_a_source source

  pub add_to_catalog-is_library :
      (opens : Text → Bool) (audio_id : ℤ) (source : Source)
      → is_library (add_to_catalog P C opens c audio_id source w).0 ≡ accepts opens source
  unfolding add_to_catalog prepare_source_for_upload
  add_to_catalog-is_library opens audio_id source =
      let upload : FormFields → FormFields =
        λ fields. record fields { form = insert "audio_id" (to_string audio_id) fields.form } in
      on_prepared (λ body. tt)
        (λ fields.
          internal_post_form P C c (api_base ++ utf8 "/upload/") (upload fields) true (pos 1)
            pre_upload_only w)
        (λ fields.
          internal_post_form-is_library P C c (api_base ++ utf8 "/upload/") (upload fields) true
            (pos 1) pre_upload_only w)
        (prepare_source opens not_an_upload source)
      ∙ prepare_source-is_library opens not_an_upload source

  add_return_to_url-is_library :
      (url : Text) (names : List Text) → is_library (add_return_to_url url names) ≡ true
  unfolding add_return_to_url
  add_return_to_url-is_library url [] = ok-is_library url
  add_return_to_url-is_library url (first ∷ rest) =
      if-is_library _ _ _ (err-is_library _ _) (ok-is_library _)

  pub set_callback_url-is_library :
      (url : Text) (opts : SetCallbackUrlOptions)
      → is_library (set_callback_url P C c url opts w).0 ≡ true
  unfolding set_callback_url
  set_callback_url-is_library url opts =
      let form : Text → FormFields =
        λ final_url. form_fields (insert "url" final_url (insert_all opts.extra_parameters [])) in
      on_prepared (λ body. tt)
        (λ final_url. post_mutating P C c (utf8 "setCallbackUrl") (form final_url) w)
        (λ final_url. post_mutating-is_library (utf8 "setCallbackUrl") (form final_url))
        (add_return_to_url url opts.return_metadata)
      ∙ add_return_to_url-is_library url opts.return_metadata

  get_callback_url-is_library : is_library (get_callback_url P C c w).0 ≡ true
  unfolding get_callback_url
  get_callback_url-is_library =
      then_read-is_library P C (url_of P C) _ ∙ post_reading-is_library (utf8 "getCallbackUrl")

  preflight-is_refusal : (skips : Bool) → is_refusal (preflight P C skips c w).0 ≡ true
  unfolding preflight
  preflight-is_refusal true = refl
  preflight-is_refusal false =
      translated-is_refusal (get_callback_url P C c w).0 get_callback_url-is_library

  pub longpoll-is_library :
      (category : Text) (opts : LongpollOptions)
      → is_library (longpoll P C c category opts w).0 ≡ true
  unfolding longpoll
  longpoll-is_library category opts =
      start-is_library (preflight P C opts.skip_callback_check c w) (start_longpoll category opts)
        (preflight-is_refusal opts.skip_callback_check)

  pub add_stream-is_library :
      (req : AddStreamRequest) → is_library (add_stream P C c req w).0 ≡ true
  unfolding add_stream
  add_stream-is_library req = mutated-is_library (λ body. tt) (utf8 "addStream") (add_form req)

  set_api_token-is_library :
      (token : Text) → is_library (set_api_token token c).0 ≡ not (is_empty token)
  unfolding set_api_token is_library
  set_api_token-is_library [] = refl
  set_api_token-is_library (b ∷ token) = refl

  pub list_streams-is_library : is_library (list_streams P C c w).0 ≡ true
  unfolding list_streams
  list_streams-is_library =
      then_read-is_library P C _ _ ∙ post_reading-is_library (utf8 "getStreams")

  -- Whatever the network brings, the two recognitions, the calls of the sub-clients and `set_api_token` return
  -- or throw an exception below `AudDError`, but for two cases, in which they throw `std::invalid_argument`:
  -- a source that is a text and neither a URL nor a path that opens, and an empty token. It is stated for
  -- a hook for deprecations that does not throw.
  pub calls-is_library :
      (opens : Text → Bool) (source : Source) (opts : RecognizeOptions)
      (enterprise_opts : EnterpriseOptions) (id : ℤ) (text : Text)
      (url_opts : SetCallbackUrlOptions) (req : AddStreamRequest) (params : Dict Text)
      (poll_opts : LongpollOptions)
      → (is_library (recognize P C opens c source opts w).0 ≡ accepts opens source)
        × (is_library (recognize_enterprise P C opens c source enterprise_opts w).0
            ≡ accepts opens source)
        × (is_library (add_to_catalog P C opens c id source w).0 ≡ accepts opens source)
        × (is_library (set_callback_url P C c text url_opts w).0 ≡ true)
        × (is_library (get_callback_url P C c w).0 ≡ true)
        × (is_library (add_stream P C c req w).0 ≡ true)
        × (is_library (set_url P C c id text w).0 ≡ true)
        × (is_library (del P C c id w).0 ≡ true)
        × (is_library (list_streams P C c w).0 ≡ true)
        × (is_library (raw_request P C c text params w).0 ≡ true)
        × (is_library (find_lyrics P C c text w).0 ≡ true)
        × (is_library (longpoll P C c text poll_opts w).0 ≡ true)
        × (is_library (set_api_token text c).0 ≡ not (is_empty text))
  unfolding set_url del raw_request find_lyrics
  calls-is_library opens source opts enterprise_opts id text url_opts req params poll_opts = (
    recognize-is_library opens source opts,
    recognize_enterprise-is_library opens source enterprise_opts,
    add_to_catalog-is_library opens id source,
    set_callback_url-is_library text url_opts,
    get_callback_url-is_library,
    add_stream-is_library req,
    mutated-is_library (λ body. tt) (utf8 "setStreamUrl")
        (insert "url" text (insert "radio_id" (to_string id) [])),
    mutated-is_library (λ body. tt) (utf8 "deleteStream") (insert "radio_id" (to_string id) []),
    list_streams-is_library,
    post_mutating-is_library text (form_fields params),
    mutated-is_library (each_of P C (parse_lyrics P)) (utf8 "findLyrics") (insert "q" text []),
    longpoll-is_library text poll_opts,
    set_api_token-is_library text,
  )
