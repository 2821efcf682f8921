-- ===== src/SubClients/Tests.antt =====
-- Examples of an upload to the catalogue over a network that never answers, and of a refused preflight.
use audd_cpp.SubClients.Subscribe.{
  Subscription, LongpollOptions, Sent, longpoll, start_longpoll, default_options, first_param,
  round-start_longpoll,
}
use audd_cpp.Longpoll.{timeout_of}
use audd_cpp.Longpoll.Rounds.{round}
use audd_cpp.Http.{with_query}
use audd_cpp.Http.Query.{build_query}
use audd_cpp.Prelude.Dict.{Dict, lookup}
use audd_cpp.Prelude.{String, ◌++◌, not, refl, Bool, ◌+◌, ◌≡◌, true, false, none, []}
use audd_cpp.Prelude.Int.{ℤ, ltb_ℤ, pos}
use audd_cpp.Prelude.Text.{Text, utf8, is_empty}
use audd_cpp.Error.{Exception, audd, api, api_error}
use audd_cpp.Http.Transport.{Transfer, CurlCode}
use audd_cpp.Platform.Sample.{platform, curl}
use audd_cpp.Source.{Source, plain, source_url, prepare_source_for_upload}
use audd_cpp.Client.{set_api_token, AudD, World, default_config}
use audd_cpp.SubClients.{
  SetCallbackUrlOptions, AddStreamRequest, set_callback_url, get_callback_url, add_stream, set_url,
  del, list_streams, add_to_catalog, raw_request, find_lyrics,
}
use audd_cpp.SubClients.Throws.{accepts, calls-is_library}
use audd_cpp.Client.Throws.{is_library}
use audd_cpp.Client.Options.{RecognizeOptions, EnterpriseOptions}
use audd_cpp.Client.Recognize.{api_base, recognize, recognize_enterprise}
use audd_cpp.SubClients.Laws.{transfers_of, add_to_catalog-once}

abbrev refused : Transfer
refused = record {
  easy_init = true;
  attached = true;
  code = CurlCode.couldnt_resolve_host;
  uploaded = none;
  status = pos 0;
  received = [];
  headers = [];
}

abbrev client : AudD
client = record {
  config = default_config;
  api_token = utf8 "t";
  standard_http = record { api_token = utf8 "t"; timeout = pos 90000 };
  enterprise_http = record { api_token = utf8 "t"; timeout = pos 3600000 };
}

abbrev world : World
world = record {
  network = record { answers = λ i. refused; asked = 5; performed = [] };
  clock = λ i. i;
  ticks = 0;
  slept = [];
  events = [];
  deprecations = [];
}

add_to_catalog-once_example :
    (add_to_catalog platform curl
      (λ path. false)
      client
      (pos 7)
      (source_url (utf8 "http://a"))
      world).1.network.asked
    ≡ 5
      + transfers_of platform curl
          (prepare_source_for_upload (λ path. false) (source_url (utf8 "http://a")))
add_to_catalog-once_example =
    add_to_catalog-once platform curl (λ path. false) client (pos 7) (source_url (utf8 "http://a"))
      world

abbrev no_callback : Exception
no_callback = audd (api (api_error (pos 19) (utf8 "Internal error") (pos 200) (utf8 "id")))

abbrev resumed : LongpollOptions
resumed = record default_options { since_time = pos 9; timeout_seconds = pos 0 }

round-start_longpoll_example :
    let s : Subscription ℤ = start_longpoll (utf8 "abc") resumed in
    (sent : Dict Text) × Sent
      (with_query platform curl (api_base ++ utf8 "/longpoll/") (build_query curl [] sent))
      world.network
      (round platform curl client s.category s.timeout (utf8 "failed") (s.poll, world.network)).1
    × ((key : String)
        → lookup key sent ≡ first_param client.standard_http.api_token (utf8 "abc") resumed key)
    × (ltb_ℤ (pos 0) (timeout_of resumed.timeout_seconds) ≡ true)
round-start_longpoll_example =
    round-start_longpoll platform curl client (utf8 "abc") (utf8 "failed") resumed world.network
      refl

abbrev options : RecognizeOptions
options = record { return_metadata = []; market = []; extra_parameters = [] }

abbrev enterprise_options : EnterpriseOptions
enterprise_options = record {
  return_metadata = [];
  skip = none;
  every = none;
  limit = none;
  skip_first_seconds = none;
  use_timecode = none;
  accurate_offsets = none;
  extra_parameters = [];
}

abbrev url_options : SetCallbackUrlOptions
url_options = record { return_metadata = []; extra_parameters = [] }

abbrev channel : AddStreamRequest
channel = record { url = utf8 "u"; radio_id = pos 1; callbacks = []; extra_parameters = [] }

abbrev opens : Text → Bool
opens path = false

-- A text that is neither a URL nor a path that opens.
abbrev missing : Source
missing = plain (utf8 "song.mp3")

calls-is_library_example :
    (is_library (recognize platform curl opens client missing options world).0
      ≡ accepts opens missing)
    × (is_library
          (recognize_enterprise platform curl opens client missing enterprise_options world).0
        ≡ accepts opens missing)
    × (is_library (add_to_catalog platform curl opens client (pos 7) missing world).0
        ≡ accepts opens missing)
    × (is_library (set_callback_url platform curl client (utf8 "q") url_options world).0 ≡ true)
    × (is_library (get_callback_url platform curl client world).0 ≡ true)
    × (is_library (add_stream platform curl client channel world).0 ≡ true)
    × (is_library (set_url platform curl client (pos 7) (utf8 "q") world).0 ≡ true)
    × (is_library (del platform curl client (pos 7) world).0 ≡ true)
    × (is_library (list_streams platform curl client world).0 ≡ true)
    × (is_library (raw_request platform curl client (utf8 "q") [] world).0 ≡ true)
    × (is_library (find_lyrics platform curl client (utf8 "q") world).0 ≡ true)
    × (is_library (longpoll platform curl client (utf8 "q") default_options world).0 ≡ true)
    × (is_library (set_api_token (utf8 "q") client).0 ≡ not (is_empty (utf8 "q")))
calls-is_library_example =
    calls-is_library platform curl client world opens missing options enterprise_options (pos 7)
      (utf8 "q") url_options channel [] default_options

refused_missing : accepts opens missing ≡ false
refused_missing = refl
