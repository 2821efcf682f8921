-- ===== src/Callback/Tests.antt =====
-- An example of a callback that parses to a match.
use audd_cpp.Prelude.{◌≡◌, refl, ◌∷◌, []}
use audd_cpp.Json.{find, object, end}
use audd_cpp.Platform.Sample.{platform, match_body, parse}
use audd_cpp.Error.{ok}
use audd_cpp.Coerce.{j_int64, j_str, j_int}
use audd_cpp.Parse.Extras.{extract_extras}
use audd_cpp.Callback.{matched, parse_callback}
use audd_cpp.Parse.Songs.{parse_stream_callback_song, StreamCallbackSong, StreamCallbackMatch}
use audd_cpp.Prelude.Int.{ℤ, pos}

abbrev empty_song : StreamCallbackSong ℤ
empty_song = parse_stream_callback_song platform (object end)

abbrev two_songs : StreamCallbackMatch ℤ
two_songs = record {
  radio_id = pos 0;
  timestamp = [];
  play_length = pos 0;
  song = empty_song;
  alternatives = empty_song ∷ [];
  extras = [];
  raw_response = match_body;
}

parsed_match : parse_callback platform [] match_body ≡ ok (matched two_songs)
unfolding parse_callback parse find j_int64 j_str j_int extract_extras parse_stream_callback_song
parsed_match = refl
