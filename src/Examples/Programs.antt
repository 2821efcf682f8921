-- ===== src/Examples/Programs.antt =====
-- The other programs of examples/: one call or a few, what they print, and how they end. Each is a function
-- of the arguments behind its name, of AUDD_API_TOKEN where it reads it, and of the world of its client.
pub mod Listen
pub mod Endings
use audd_cpp.Prelude.{
  ℕ, suc, ◌+◌, ◌*◌, ◌==◌, ◌||◌, ◌&&◌, leb, Bool, true, false, Option, none, some, List, [], ◌∷◌,
  ◌++◌, if◌then◌else◌,
}
use audd_cpp.Prelude.Int.{ℤ, pos}
use audd_cpp.Prelude.Text.{Text, utf8, is_empty}
use audd_cpp.Prelude.Decimal.{to_string, negate, read_digits}
use audd_cpp.Platform.{Platform}
use audd_cpp.Error.{
  Exception, Result, ok, err, AudDError, audd, connection_error, invalid_argument,
  custom_catalog_access, what,
}
use audd_cpp.Http.Transport.{Curl}
use audd_cpp.Recognition.{RecognitionResult, EnterpriseMatch, Stream}
use audd_cpp.Source.{plain, source_file_path}
use audd_cpp.Parse.Songs.{StreamCallbackMatch, StreamCallbackSong, StreamCallbackNotification}
use audd_cpp.Callback.{CallbackEvent, matched, notified, parse_callback, handle_callback}
use audd_cpp.Client.{AudD, World, new_client, default_config}
use audd_cpp.Client.Options.{RecognizeOptions, EnterpriseOptions}
use audd_cpp.Client.Recognize.{recognize, recognize_enterprise}
use audd_cpp.SubClients.{
  SetCallbackUrlOptions, AddStreamRequest, set_callback_url, add_stream, list_streams,
  add_to_catalog,
}

-- `main` returns a status, or an exception leaves it.
pub data Ending : Type 0 where
  exits : ℕ → Ending
  uncaught : Exception → Ending

pub record Run : Type 0 where
  pub ending : Ending
  pub out : Text
  pub errors : Text
  pub world : World

abbrev pub newline : Text
newline = 0x0a ∷ []

abbrev pub usage : Text → Text → World → Run
usage name args w = record {
  ending = exits 2;
  out = [];
  errors = utf8 "usage: " ++ (name ++ (args ++ newline));
  world = w;
}

-- `catch (const audd::AudDError& e)`; an exception of another class is not caught.
unfoldable pub failed : Text → Exception → World → Run
unfolding what
failed out (audd e) w = record {
  ending = exits 1;
  out = out;
  errors = utf8 "audd: " ++ (what e ++ newline);
  world = w;
}
failed out (invalid_argument text) w = record {
  ending = uncaught (invalid_argument text);
  out = out;
  errors = [];
  world = w;
}

unfoldable pub finish : {A : Type 0} → (A → Text) → Result A × World → Run
unfolding failed
finish show (ok a, w) = record { ending = exits 0; out = show a; errors = []; world = w }
finish show (err e, w) = failed [] e w

abbrev pub no_options : RecognizeOptions
no_options = record { return_metadata = []; market = []; extra_parameters = [] }

-- `opts.limit = 1`
abbrev pub one_each : EnterpriseOptions
one_each = record {
  return_metadata = [];
  skip = none;
  every = none;
  limit = some (pos 1);
  skip_first_seconds = none;
  use_timecode = none;
  accurate_offsets = none;
  extra_parameters = [];
}

abbrev pub named : Text → Text → Text
named artist title = artist ++ (utf8 " — " ++ title)

-- `std::atoi`, for a value in the range of `int`: blanks, a sign, and the digits that follow.
abbrev pub is_space : ℕ → Bool
is_space c = c == 0x20 || (leb 0x09 c && leb c 0x0d)

abbrev pub signed_digits : Text → ℤ
signed_digits [] = pos 0
signed_digits (c ∷ s) =
    if c == b'-'
    then negate (read_digits 0 s).0
    else if c == b'+'
    then pos (read_digits 0 s).0
    else pos (read_digits 0 (c ∷ s)).0

unfoldable pub atoi : Text → ℤ
unfolding read_digits
atoi [] = pos 0
atoi (c ∷ s) = if is_space c then atoi s else signed_digits (c ∷ s)

abbrev pub bool_digit : Bool → Text
bool_digit true = utf8 "1"
bool_digit false = utf8 "0"

module _ {D : Type 0} where
  abbrev pub file_text : Option (RecognitionResult D) → Text
  file_text none = utf8 "no match" ++ newline
  file_text (some r) = named r.artist r.title ++ newline

  abbrev pub url_text : Option (RecognitionResult D) → Text
  url_text none = utf8 "no match" ++ newline
  url_text (some r) =
      named r.artist r.title ++ (newline ++ (utf8 "song link: " ++ (r.song_link ++ newline)))

  -- The loop over the matches; `i` is the number of the next line.
  unfoldable pub match_lines : ℕ → List (EnterpriseMatch D) → Text
  unfolding to_string
  match_lines i [] = []
  match_lines i (m ∷ matches) =
      to_string (pos i)
      ++ (utf8 ". "
          ++ (named m.artist m.title
              ++ (utf8 " (timecode "
                  ++ (m.timecode ++ (utf8 ")" ++ (newline ++ match_lines (suc i) matches))))))

  unfoldable pub stream_lines : List (Stream D) → Text
  unfolding to_string
  stream_lines [] = []
  stream_lines (s ∷ streams) =
      to_string s.radio_id
      ++ (utf8 " "
          ++ (s.url
              ++ (utf8 " running="
                  ++ (bool_digit s.stream_running ++ (newline ++ stream_lines streams)))))

module _ (P : Platform) (C : Curl) (opens : Text → Bool) where
  open P use {Double}

  -- `works` is whether libcurl initialises; if not, the constructor of the client throws, in front of `try`.
  abbrev pub with_client : Bool → AudD → (AudD → Run) → World → Run
  with_client true client rest w = rest client
  with_client false client rest w = record {
    ending = uncaught (audd (connection_error (utf8 "curl_global_init failed") true));
    out = [];
    errors = [];
    world = w;
  }

  abbrev pub keyed : AudD
  keyed = new_client (utf8 "your-api-token") default_config none

  abbrev pub from_environment : Option Text → AudD
  from_environment env = new_client [] default_config env

  -- examples/recognize_file.cpp
  unfoldable pub recognize_file : Bool → Text → List Text → World → Run
  unfolding finish
  recognize_file works name [] w = usage name (utf8 " <audio-file>") w
  recognize_file works name (path ∷ more) w =
      with_client works keyed
        (λ client.
          finish file_text (recognize P C opens client (source_file_path path) no_options w))
        w

  -- examples/recognize_url.cpp
  abbrev pub given_url : List Text → Text
  given_url [] = utf8 "https://audd.tech/example.mp3"
  given_url (url ∷ more) = url

  unfoldable pub recognize_url : Bool → List Text → World → Run
  unfolding finish
  recognize_url works args w =
      with_client works keyed
        (λ client.
          finish url_text (recognize P C opens client (plain (given_url args)) no_options w))
        w

  -- examples/recognize_enterprise.cpp
  unfoldable pub recognize_long : Bool → Text → List Text → World → Run
  unfolding finish match_lines
  recognize_long works name [] w = usage name (utf8 " <url-or-path>") w
  recognize_long works name (source ∷ more) w =
      with_client works keyed
        (λ client.
          finish (match_lines 1) (recognize_enterprise P C opens client (plain source) one_each w))
        w

  -- examples/custom_catalog_add.cpp: a catch of its own for a missing subscription.
  unfoldable pub added : ℤ → Result (Unit {0}) × World → Run
  unfolding finish what
  added audio_id (err (audd (custom_catalog_access e server)), w) = record {
    ending = exits 3;
    out = [];
    errors = what (custom_catalog_access e server) ++ newline;
    world = w;
  }
  added audio_id r = finish (λ u. utf8 "added audio_id=" ++ (to_string audio_id ++ newline)) r

  unfoldable pub catalog_add : Bool → Text → Option Text → List Text → World → Run
  unfolding added atoi
  catalog_add works name env [] w = usage name (utf8 " <audio_id> <file-or-url>") w
  catalog_add works name env (id ∷ []) w = usage name (utf8 " <audio_id> <file-or-url>") w
  catalog_add works name env (id ∷ source ∷ more) w =
      with_client works (from_environment env)
        (λ client. added (atoi id) (add_to_catalog P C opens client (atoi id) (plain source) w)) w

  abbrev pub no_url_options : SetCallbackUrlOptions
  no_url_options = record { return_metadata = []; extra_parameters = [] }

  abbrev pub some_channel : AddStreamRequest
  some_channel = record {
    url = utf8 "twitch:somechannel";
    radio_id = pos 1;
    callbacks = [];
    extra_parameters = [];
  }

  -- examples/streams_setup.cpp: the third call, and what precedes it.
  abbrev pub listed : AudD → Result (Unit {0}) × World → Run
  listed client (err e, w) = failed [] e w
  listed client (ok u, w) = finish stream_lines (list_streams P C client w)

  abbrev pub subscribed : AudD → Result (Unit {0}) × World → Run
  subscribed client (err e, w) = failed [] e w
  subscribed client (ok u, w) = listed client (add_stream P C client some_channel w)

  unfoldable pub streams_setup : Bool → Text → Option Text → List Text → World → Run
  unfolding finish failed stream_lines
  streams_setup works name env [] w = usage name (utf8 " <callback-url>") w
  streams_setup works name env (url ∷ more) w =
      with_client works (from_environment env)
        (λ client. subscribed client (set_callback_url P C client url no_url_options w)) w
