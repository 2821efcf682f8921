-- ===== src/Parse.antt =====
-- src/json_parse.cpp: the typed results from JSON values.
pub mod Extras
pub mod Metadata
pub mod Songs
pub mod Offset
pub mod Laws
mod Tests
use mathlib.Core.Option
use audd_cpp.Prelude.{
  ℕ, Bool, true, false, not, ◌&&◌, ◌||◌, Option, none, some, List, [], ◌∷◌, ◌++◌, map, String,
  if◌then◌else◌,
}
use audd_cpp.Prelude.Int.{ℤ, wrap32}
use audd_cpp.Prelude.Text.{Text, utf8, is_empty}
use audd_cpp.Json.{Json, find, is_object, is_array, elements}
use audd_cpp.Platform.{Platform}
use audd_cpp.Coerce.{j_str, j_int, j_bool, coerce_id, find_value}
use audd_cpp.Recognition.{
  RecognitionResult, EnterpriseMatch, EnterpriseChunkResult, LyricsResult, Stream,
}
use audd_cpp.Parse.Extras.{extract_extras, array_at, object_at}
use audd_cpp.Parse.Metadata.{parse_blocks}

abbrev pub recognition_keys : List String
recognition_keys =
    "timecode" ∷ "audio_id" ∷ "artist" ∷ "title" ∷ "album" ∷ "release_date" ∷ "label" ∷ "song_link"
    ∷ "isrc" ∷ "upc" ∷ "apple_music" ∷ "spotify" ∷ "deezer" ∷ "napster" ∷ "musicbrainz" ∷ []

abbrev pub match_keys : List String
match_keys =
    "score" ∷ "timecode" ∷ "audio_id" ∷ "artist" ∷ "title" ∷ "album" ∷ "release_date" ∷ "label"
    ∷ "isrc" ∷ "upc" ∷ "song_link" ∷ "start_offset" ∷ "end_offset" ∷ []

abbrev pub lyrics_keys : List String
lyrics_keys =
    "artist" ∷ "title" ∷ "lyrics" ∷ "song_id" ∷ "media" ∷ "full_title" ∷ "artist_id" ∷ "song_link"
    ∷ []

module _ (P : Platform) where
  open P use {Double, dump}

  -- `if (v = find_value(j, "audio_id")) if (n = coerce_id(*v)) audio_id = static_cast<int>(*n)`
  unfoldable pub audio_id_of : Json Double → Option ℤ
  unfolding find_value coerce_id
  audio_id_of j = elim (find_value P j "audio_id") [
    | none ↦ none
    | some v ↦ Option.map wrap32 (coerce_id P v)
  ]

  unfoldable pub parse_recognition : Json Double → RecognitionResult Double
  unfolding audio_id_of parse_blocks
  parse_recognition j = record {
    timecode = j_str P j "timecode";
    audio_id = audio_id_of j;
    artist = j_str P j "artist";
    title = j_str P j "title";
    album = j_str P j "album";
    release_date = j_str P j "release_date";
    label = j_str P j "label";
    song_link = j_str P j "song_link";
    isrc = j_str P j "isrc";
    upc = j_str P j "upc";
    blocks = parse_blocks P j;
    extras = extract_extras j recognition_keys;
    raw_response = dump j;
  }

  -- The body of the loop over `songs`.
  unfoldable pub parse_song : Json Double → EnterpriseMatch Double
  unfolding audio_id_of
  parse_song song = record {
    score = j_int P song "score";
    timecode = j_str P song "timecode";
    audio_id = audio_id_of song;
    artist = j_str P song "artist";
    title = j_str P song "title";
    album = j_str P song "album";
    release_date = j_str P song "release_date";
    label = j_str P song "label";
    isrc = j_str P song "isrc";
    upc = j_str P song "upc";
    song_link = j_str P song "song_link";
    start_offset = j_int P song "start_offset";
    end_offset = j_int P song "end_offset";
    start_seconds = none;
    end_seconds = none;
    extras = extract_extras song match_keys;
    raw_response = dump song;
  }

  unfoldable pub parse_enterprise_chunk : Json Double → EnterpriseChunkResult Double
  unfolding parse_song
  parse_enterprise_chunk j = record {
    songs = map parse_song (array_at j "songs");
    offset = j_str P j "offset";
    extras = extract_extras j ("songs" ∷ "offset" ∷ []);
    raw_response = dump j;
  }

  unfoldable pub parse_lyrics : Json Double → LyricsResult Double
  parse_lyrics j = record {
    artist = j_str P j "artist";
    title = j_str P j "title";
    lyrics = j_str P j "lyrics";
    song_id = j_int P j "song_id";
    media = j_str P j "media";
    full_title = j_str P j "full_title";
    artist_id = j_int P j "artist_id";
    song_link = j_str P j "song_link";
    extras = extract_extras j lyrics_keys;
    raw_response = dump j;
  }

  unfoldable pub parse_stream : Json Double → Stream Double
  parse_stream j = record {
    radio_id = j_int P j "radio_id";
    url = j_str P j "url";
    stream_running = j_bool P j "stream_running";
    longpoll_category = j_str P j "longpoll_category";
    extras = extract_extras j ("radio_id" ∷ "url" ∷ "stream_running" ∷ "longpoll_category" ∷ []);
    raw_response = dump j;
  }

  -- The separator is U+2014 between spaces.
  unfoldable pub branded_message : Json Double → Text
  branded_message result =
      let artist = j_str P result "artist" in
      let title = j_str P result "title" in
      if not (is_object result) || (is_empty artist && is_empty title)
      then []
      else if not (is_empty artist) && not (is_empty title)
      then artist ++ (utf8 " — " ++ title)
      else if not (is_empty artist)
      then artist
      else title

  -- The array at `result`, `none` for the null pointer.
  unfoldable pub result_array_or_null : Json Double → Option (List (Json Double))
  unfolding find
  result_array_or_null body = elim (find body "result") [
    | none ↦ none
    | some v ↦ if is_array v then some (elements v) else none
  ]
