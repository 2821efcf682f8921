-- ===== src/Parse/Songs.antt =====
-- The parts of a stream callback, src/json_parse.cpp and include/audd/callback.hpp.

use audd_cpp.Prelude.{Bool, Option, none, some, List, [], ◌∷◌, map, String}
use audd_cpp.Prelude.Int.{ℤ}
use audd_cpp.Prelude.Text.{Text, utf8}
use audd_cpp.Prelude.Dict.{Dict}
use audd_cpp.Json.{Json}
use audd_cpp.Platform.{Platform}
use audd_cpp.Coerce.{j_str, j_int, j_int64, find_value, coerce_bool}
use audd_cpp.Error.{Result, ok, err, audd, serialization_error}
use audd_cpp.Recognition.{Blocks}
use audd_cpp.Parse.Extras.{extract_extras, array_at}
use audd_cpp.Parse.Metadata.{parse_blocks}

pub record StreamCallbackSong (D : Type 0) : Type 0 where
  pub score : ℤ
  pub artist : Text
  pub title : Text
  pub album : Text
  pub release_date : Text
  pub label : Text
  pub song_link : Text
  pub isrc : Text
  pub upc : Text
  pub blocks : Blocks D
  pub extras : Dict (Json D)

pub record StreamCallbackMatch (D : Type 0) : Type 0 where
  pub radio_id : ℤ
  pub timestamp : Text
  pub play_length : ℤ
  pub song : StreamCallbackSong D
  pub alternatives : List (StreamCallbackSong D)
  pub extras : Dict (Json D)
  pub raw_response : Text

pub record StreamCallbackNotification (D : Type 0) : Type 0 where
  pub radio_id : ℤ
  pub stream_running : Option Bool
  pub notification_code : ℤ
  pub notification_message : Text
  pub time : ℤ
  pub extras : Dict (Json D)
  pub raw_response : Text

abbrev pub song_keys : List String
song_keys =
    "score" ∷ "artist" ∷ "title" ∷ "album" ∷ "release_date" ∷ "label" ∷ "song_link" ∷ "isrc" ∷ "upc"
    ∷ "apple_music" ∷ "spotify" ∷ "deezer" ∷ "napster" ∷ "musicbrainz" ∷ []

module _ (P : Platform) where
  open P use {Double}

  unfoldable pub parse_stream_callback_song : Json Double → StreamCallbackSong Double
  unfolding parse_blocks
  parse_stream_callback_song j = record {
    score = j_int P j "score";
    artist = j_str P j "artist";
    title = j_str P j "title";
    album = j_str P j "album";
    release_date = j_str P j "release_date";
    label = j_str P j "label";
    song_link = j_str P j "song_link";
    isrc = j_str P j "isrc";
    upc = j_str P j "upc";
    blocks = parse_blocks P j;
    extras = extract_extras j song_keys;
  }

  -- The end of `parse_stream_callback_match`, over the songs.
  abbrev pub match_of :
      Json Double → Text → List (StreamCallbackSong Double) → Result (StreamCallbackMatch Double)
  match_of result_obj full_body [] =
      err (audd (serialization_error (utf8 "callback result.results is empty") full_body))
  match_of result_obj full_body (song ∷ alternatives) = ok (record {
    radio_id = j_int64 P result_obj "radio_id";
    timestamp = j_str P result_obj "timestamp";
    play_length = j_int P result_obj "play_length";
    song = song;
    alternatives = alternatives;
    extras = extract_extras result_obj ("radio_id" ∷ "timestamp" ∷ "play_length" ∷ "results" ∷ []);
    raw_response = full_body;
  })

  unfoldable pub parse_stream_callback_match :
      Json Double → Text → Result (StreamCallbackMatch Double)
  unfolding array_at parse_stream_callback_song
  parse_stream_callback_match result_obj full_body =
      match_of result_obj full_body (map parse_stream_callback_song (array_at result_obj "results"))

  unfoldable pub parse_stream_callback_notification :
      Json Double → ℤ → Text → StreamCallbackNotification Double
  unfolding find_value coerce_bool
  parse_stream_callback_notification notification_obj outer_time full_body = record {
    radio_id = j_int P notification_obj "radio_id";
    stream_running = elim (find_value P notification_obj "stream_running") [
      | none ↦ none
      | some v ↦ coerce_bool P v
    ];
    notification_code = j_int P notification_obj "notification_code";
    notification_message = j_str P notification_obj "notification_message";
    time = outer_time;
    extras =
        extract_extras notification_obj
          ("radio_id" ∷ "stream_running" ∷ "notification_code" ∷ "notification_message" ∷ []);
    raw_response = full_body;
  }
