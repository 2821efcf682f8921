-- ===== src/Examples/Programs/Endings.antt =====
-- How the programs of examples/ end.
use audd_cpp.Prelude.{
  ◌≡◌, refl, ◌∙◌, Bool, true, false, ◌||◌, ◌&&◌, Option, none, some, List, [], ◌∷◌, ◌⊎◌, inl, inr,
  map, arith, Option-cases,
}
use audd_cpp.Prelude.Int.{ℤ}
use audd_cpp.Prelude.Text.{Text}
use audd_cpp.Json.{Json, find, is_object}
use audd_cpp.Platform.{Platform}
use audd_cpp.Error.{
  Exception, Result, ok, err, audd, api, custom_catalog_access, connection, serialization,
  missing_api_token, invalid_argument,
}
use audd_cpp.Http.Transport.{Curl}
use audd_cpp.Source.{is_http_url, plain, source_file_path}
use audd_cpp.Parse.Extras.{array_at}
use audd_cpp.Parse.Songs.{
  StreamCallbackSong, match_of, parse_stream_callback_match, parse_stream_callback_song,
}
use audd_cpp.Callback.{CallbackEvent, matched, as_event, event_of, parse_callback}
use audd_cpp.Client.{AudD, World}
use audd_cpp.Client.Throws.{is_library, ok-is_library, err-is_library, if-is_library}
use audd_cpp.SubClients.{set_callback_url, add_stream, list_streams}
use audd_cpp.SubClients.Throws.{
  recognize-is_library, recognize_enterprise-is_library, add_to_catalog-is_library,
  set_callback_url-is_library, add_stream-is_library, list_streams-is_library, longpoll-is_library,
}
use audd_cpp.Examples.Programs.{
  Ending, exits, uncaught, Run, failed, finish, recognize_file, given_url, recognize_url,
  recognize_long, added, catalog_add, streams_setup, no_options, one_each, keyed, from_environment,
  no_url_options, some_channel, listed, subscribed, atoi, with_client,
}
use audd_cpp.Md5.Context.{Md5Ctx}
use audd_cpp.SubClients.Subscribe.{Subscription, default_options, longpoll, category_of_radio}
use audd_cpp.Examples.Programs.Listen.{
  Reply, reply, handle_post, listened, streams_longpoll, given_radio, category_line,
}

abbrev pub is_caught : Ending → Bool
is_caught (exits status) = true
is_caught (uncaught e) = false

finish-is_caught :
    {A : Type 0} (show : A → Text) (r : Result A × World)
    → is_caught (finish show r).ending ≡ is_library r.0
unfolding finish is_library
finish-is_caught show (ok a, w) = refl
finish-is_caught show (err (audd e), w) = refl
finish-is_caught show (err (invalid_argument text), w) = refl

added-is_caught :
    (P : Platform) (C : Curl) (opens : Text → Bool) (id : ℤ) (r : Result (Unit {0}) × World)
    → is_caught (added P C opens id r).ending ≡ is_library r.0
unfolding added finish is_library
added-is_caught P C opens id (ok u, w) = refl
added-is_caught P C opens id (err (audd (custom_catalog_access e server)), w) = refl
added-is_caught P C opens id (err (audd (api e)), w) = refl
added-is_caught P C opens id (err (audd (connection text before)), w) = refl
added-is_caught P C opens id (err (audd (serialization text raw)), w) = refl
added-is_caught P C opens id (err (audd missing_api_token), w) = refl
added-is_caught P C opens id (err (invalid_argument text), w) = refl

listened-is_caught :
    {D : Type 0} (printed : Text) (events : List (CallbackEvent D)) (errors : List Exception)
    (r : Result (Subscription D) × World)
    → is_library r.0 ≡ true
    → is_caught (listened printed events errors r).ending ≡ true
unfolding failed is_library
listened-is_caught printed events errors (ok subscription, w) h = refl
listened-is_caught printed events errors (err (audd e), w) h = refl
listened-is_caught printed events errors (err (invalid_argument text), w) h = h

module _ (P : Platform) where
  open P use {Double, parse}

  match-is_library :
      (j : Json Double) (body : Text) (songs : List (StreamCallbackSong Double))
      → is_library (as_event matched (match_of P j body songs)) ≡ true
  match-is_library j body [] = err-is_library _ _
  match-is_library j body (song ∷ songs) = ok-is_library _

  event_of-is_library :
      (j : Json Double) (body : Text) (n r : Option (Json Double))
      → is_library (event_of P j body n r) ≡ true
  unfolding event_of parse_stream_callback_match
  event_of-is_library j body (some n) r = ok-is_library _
  event_of-is_library j body none (some r) =
      match-is_library r body (map (parse_stream_callback_song P) (array_at r "results"))
  event_of-is_library j body none none = err-is_library _ _

  parsed-is_library : (failure body : Text) → is_library (parse_callback P failure body) ≡ true
  unfolding parse_callback
  parsed-is_library failure body = elim (Option-cases (parse body)) [
    | inl e ↦ rw (parse_callback, e) (err-is_library _ _)
    | inr (j, e) ↦
        rw (parse_callback, e)
          (if-is_library (is_object j) _ _
            (event_of-is_library j body (find j "notification") (find j "result"))
            (err-is_library _ _))
  ]

  reply_lem :
      (r : Result (CallbackEvent Double))
      → is_library r ≡ true
      → (a : Reply) × (reply r ≡ some a) × ((a.status ≡ 200) ⊎ (a.status ≡ 400))
  unfolding reply is_library
  reply_lem (ok ev) h = (_, refl, inl refl)
  reply_lem (err (audd e)) h = (_, refl, inr refl)
  reply_lem (err (invalid_argument text)) h = absurd (ground (arith, h))

module _ (P : Platform) (C : Curl) (opens : Text → Bool) where
  open P use {Double}

  listed-is_caught :
      (client : AudD) (r : Result (Unit {0}) × World)
      → is_library r.0 ≡ true
      → is_caught (listed P C opens client r).ending ≡ true
  unfolding failed is_library
  listed-is_caught client (ok u, w) h =
      finish-is_caught _ (list_streams P C client w) ∙ list_streams-is_library P C client w
  listed-is_caught client (err (audd e), w) h = refl
  listed-is_caught client (err (invalid_argument text), w) h = h

  subscribed-is_caught :
      (client : AudD) (r : Result (Unit {0}) × World)
      → is_library r.0 ≡ true
      → is_caught (subscribed P C opens client r).ending ≡ true
  unfolding failed is_library
  subscribed-is_caught client (ok u, w) h =
      listed-is_caught client (add_stream P C client (some_channel P C opens) w)
        (add_stream-is_library P C client w (some_channel P C opens))
  subscribed-is_caught client (err (audd e), w) h = refl
  subscribed-is_caught client (err (invalid_argument text), w) h = h

  -- The constructor of the client, and what follows it.
  with_client-is_caught :
      (works : Bool) (client : AudD) (rest : AudD → Run) (w : World) (b : Bool)
      → is_caught (rest client).ending ≡ b
      → is_caught (with_client P C opens works client rest w).ending ≡ (works && b)
  with_client-is_caught true client rest w b h = h
  with_client-is_caught false client rest w b h = refl

  started-is_caught :
      (works : Bool) (client : AudD) (rest : AudD → Run) (w : World)
      → is_caught (rest client).ending ≡ true
      → is_caught (with_client P C opens works client rest w).ending ≡ works
  started-is_caught true client rest w h = h
  started-is_caught false client rest w h = refl

  -- How six programs end, given the arguments that they ask for. If libcurl does not initialise, each of the
  -- six ends by an exception that nobody catches. Else, whatever the network brings, recognize_url,
  -- recognize_enterprise and custom_catalog_add do exactly if the text that they are given as the source is
  -- neither a URL nor a path that opens; recognize_file, streams_setup and streams_longpoll never do. The
  -- handler for callbacks answers every body, with the status 200 or 400.
  pub programs-is_caught :
      (works : Bool) (name id source failure body : Text) (env : Option Text) (args : List Text)
      (fresh : Md5Ctx) (events : List (CallbackEvent Double)) (errors : List Exception) (w : World)
      → (is_caught (recognize_file P C opens works name (source ∷ args) w).ending ≡ works)
        × (is_caught (recognize_url P C opens works args w).ending ≡ (
            works && (is_http_url (given_url P C opens args) || opens (given_url P C opens args))))
        × (is_caught (recognize_long P C opens works name (source ∷ args) w).ending
            ≡ (works && (is_http_url source || opens source)))
        × (is_caught (catalog_add P C opens works name env (id ∷ source ∷ args) w).ending
            ≡ (works && (is_http_url source || opens source)))
        × (is_caught (streams_setup P C opens works name env (source ∷ args) w).ending ≡ works)
        × (is_caught (streams_longpoll P C opens fresh works env args events errors w).ending
            ≡ works)
        × ((a : Reply) × (handle_post P failure body ≡ some a)
            × ((a.status ≡ 200) ⊎ (a.status ≡ 400)))
  unfolding recognize_file recognize_url recognize_long catalog_add streams_setup streams_longpoll
      handle_post
  programs-is_caught works name id source failure body env args fresh events errors w =
      let key = keyed P C opens in
      let found = from_environment P C opens env in
      let url = given_url P C opens args in
      let category = category_of_radio P C fresh found (given_radio args) in
      (
        started-is_caught works key _ w (
            finish-is_caught _ _
            ∙ recognize-is_library P C key w opens (source_file_path source) no_options),
        with_client-is_caught works key _ w (is_http_url url || opens url)
            (finish-is_caught _ _ ∙ recognize-is_library P C key w opens (plain url) no_options),
        with_client-is_caught works key _ w (is_http_url source || opens source) (
            finish-is_caught _ _
            ∙ recognize_enterprise-is_library P C key w opens (plain source) one_each),
        with_client-is_caught works found _ w (is_http_url source || opens source) (
            added-is_caught P C opens (atoi id) _
            ∙ add_to_catalog-is_library P C found w opens (atoi id) (plain source)),
        started-is_caught works found _ w (
            subscribed-is_caught found
              (set_callback_url P C found source (no_url_options P C opens) w)
              (set_callback_url-is_library P C found w source (no_url_options P C opens))),
        started-is_caught works found _ w (
            listened-is_caught (category_line category) events errors
              (longpoll P C found category default_options w)
              (longpoll-is_library P C found w category default_options)),
        reply_lem P (parse_callback P failure body) (parsed-is_library P failure body),
      )
