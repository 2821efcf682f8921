-- ===== src/Examples/Tests.antt =====
-- Examples of the programs of examples/: fields with commas and quotes, a folder with two copies of one
-- song, and a network that only refuses.
use audd_cpp.Prelude.{
  replicate, ◌≡◌, refl, ◌||◌, ◌&&◌, true, false, none, Option, some, List, [], ◌∷◌, ◌++◌, map, ◌⊎◌,
}
use audd_cpp.Prelude.Int.{ℤ, pos, negsuc}
use audd_cpp.Prelude.Text.{Text, utf8}
use audd_cpp.Json.{Json, object, member, str, end}
use audd_cpp.Platform.{Platform}
use audd_cpp.Platform.Sample.{platform, curl}
use audd_cpp.Error.{Result, ok}
use audd_cpp.Http.Transport.{Transfer, CurlCode}
use audd_cpp.Source.{is_http_url}
use audd_cpp.Recognition.{RecognitionResult}
use audd_cpp.Coerce.{j_str}
use audd_cpp.Parse.{parse_recognition}
use audd_cpp.Parse.Songs.{StreamCallbackMatch, parse_stream_callback_song}
use audd_cpp.Client.{World}
use audd_cpp.Examples.Csv.{csv_escape}
use audd_cpp.Examples.Csv.Reader.{read_csv}
use audd_cpp.Examples.Csv.Sessions.{names, fields, all_matches, run_all, read_csv-run_all}
use audd_cpp.Examples.Rename.{FilePath, Entry, Library, rename, place}
use audd_cpp.Examples.Programs.{
  recognize_file, given_url, recognize_url, recognize_long, catalog_add, streams_setup, atoi,
}
use audd_cpp.Md5.Context.{Md5Ctx, initial_state}
use audd_cpp.Callback.{matched}
use audd_cpp.Examples.Programs.Listen.{Reply, handle_post, streams_longpoll}
use audd_cpp.Examples.Programs.Endings.{is_caught, programs-is_caught}

abbrev song_json : Json ℤ
song_json =
    object (member "artist" (str (utf8 "Simon, \"Paul\"")) (member "title" (str (utf8 "a/b")) end))

abbrev a_match : StreamCallbackMatch ℤ
a_match = record {
  radio_id = pos 7;
  timestamp = utf8 "noon";
  play_length = pos 111;
  song = parse_stream_callback_song platform song_json;
  alternatives = [];
  extras = [];
  raw_response = [];
}

csv_escape_test : csv_escape (utf8 "Simon, \"Paul\"") ≡ utf8 "\"Simon, \"\"Paul\"\"\""
unfolding csv_escape
csv_escape_test = refl

-- A carriage return alone is written as it is.
csv_escape_return : csv_escape (0x0d ∷ []) ≡ 0x0d ∷ []
unfolding csv_escape
csv_escape_return = refl

read_csv-run_all_example :
    read_csv (run_all ((a_match ∷ []) ∷ [] ∷ (a_match ∷ a_match ∷ []) ∷ []) [])
    ≡ names
      ∷ (map fields (all_matches ((a_match ∷ []) ∷ [] ∷ (a_match ∷ a_match ∷ []) ∷ []))
          ++ ([] ∷ []) ∷ [])
read_csv-run_all_example = read_csv-run_all (a_match ∷ []) ([] ∷ (a_match ∷ a_match ∷ []) ∷ [])

-- Every answer is a body that parses as a recognition.
abbrev answered : Transfer
answered = record {
  easy_init = true;
  attached = true;
  code = CurlCode.curl_ok;
  uploaded = none;
  status = pos 200;
  received = utf8 "r";
  headers = [];
}

abbrev answering : Platform
answering = record platform {
  parse =
      λ t. some (object (member "status" (str (utf8 "success")) (member "result" song_json end)));
}

abbrev world : World
world = record {
  network = record { answers = λ i. answered; asked = 0; performed = [] };
  clock = λ i. i;
  ticks = 0;
  slept = [];
  events = [];
  deprecations = [];
}

abbrev in_music : Text → FilePath
in_music name = record { folders = utf8 "music" ∷ []; name = name }

abbrev library : Library
library = record {
  files =
      record { path = in_music (utf8 "1.MP3"); contents = 1 ∷ [] }
      ∷ record { path = in_music (utf8 "2.mp3"); contents = 2 ∷ [] }
      ∷ record { path = in_music (utf8 "3.mp3"); contents = 3 ∷ [] }
      ∷ [];
  lost = [];
  world = world;
}

abbrev entries : List Entry
entries =
    record { path = in_music (utf8 "2.mp3"); is_regular = true }
    ∷ record { path = in_music (utf8 "3.mp3"); is_regular = true }
    ∷ []

abbrev song : Result (Option (RecognitionResult ℤ))
song = ok (some (parse_recognition platform song_json))

-- Two files of a folder that are recognised as one song: the second takes the place of the first.
abbrev collided : Library
collided =
    (place (λ old new. true) (in_music (utf8 "3.mp3")) song
      (place (λ old new. true) (in_music (utf8 "2.mp3")) song library).1).1

collided_lost : map (λ f. f.contents) collided.lost ≡ (2 ∷ []) ∷ []
unfolding place parse_recognition j_str
collided_lost = refl

-- A zero byte of an artist ends the new path, and with it goes the extension.
abbrev cut_off : Library
cut_off =
    (rename (λ old new. true) (in_music (utf8 "2.mp3")) (in_music (utf8 "A" ++ 0 ∷ utf8 " - B.mp3"))
      library).1

cut_off_names : map (λ f. f.path.name) cut_off.files ≡ utf8 "1.MP3" ∷ utf8 "A" ∷ utf8 "3.mp3" ∷ []
unfolding rename
cut_off_names = refl

atoi_test :
    (atoi (utf8 " -12x") ≡ negsuc 11) × (atoi (utf8 "+7") ≡ pos 7) × (atoi (utf8 "x") ≡ pos 0)
unfolding atoi
atoi_test = (refl, refl, refl)

abbrev fresh : Md5Ctx
fresh = record { state = initial_state; bitcount = 77; buffer = replicate 64 170 }

programs-is_caught_example :
    (is_caught
        (recognize_file platform curl
          (λ path. false)
          true
          (utf8 "p")
          (utf8 "b.mp3" ∷ utf8 "a.mp3" ∷ [])
          world).ending
      ≡ true)
    × (is_caught (recognize_url platform curl (λ path. false) true (utf8 "a.mp3" ∷ []) world).ending
        ≡ (true
            && (is_http_url (given_url platform curl (λ path. false) (utf8 "a.mp3" ∷ []))
                || false)))
    × (is_caught
          (recognize_long platform curl
            (λ path. false)
            true
            (utf8 "p")
            (utf8 "b.mp3" ∷ utf8 "a.mp3" ∷ [])
            world).ending
        ≡ (true && (is_http_url (utf8 "b.mp3") || false)))
    × (is_caught
          (catalog_add platform curl
            (λ path. false)
            true
            (utf8 "p")
            (some (utf8 "t"))
            (utf8 "7" ∷ utf8 "b.mp3" ∷ utf8 "a.mp3" ∷ [])
            world).ending
        ≡ (true && (is_http_url (utf8 "b.mp3") || false)))
    × (is_caught
          (streams_setup platform curl
            (λ path. false)
            true
            (utf8 "p")
            (some (utf8 "t"))
            (utf8 "b.mp3" ∷ utf8 "a.mp3" ∷ [])
            world).ending
        ≡ true)
    × (is_caught
          (streams_longpoll platform curl
            (λ path. false)
            fresh
            true
            (some (utf8 "t"))
            (utf8 "a.mp3" ∷ [])
            (matched a_match ∷ [])
            []
            world).ending
        ≡ true)
    × ((a : Reply) × (handle_post platform [] (utf8 "m") ≡ some a)
        × ((a.status ≡ 200) ⊎ (a.status ≡ 400)))
programs-is_caught_example =
    programs-is_caught platform curl (λ path. false) true (utf8 "p") (utf8 "7") (utf8 "b.mp3") []
      (utf8 "m") (some (utf8 "t")) (utf8 "a.mp3" ∷ []) fresh (matched a_match ∷ []) [] world
