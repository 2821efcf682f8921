-- ===== src/Parse/Metadata.antt =====
-- The metadata blocks, src/json_parse.cpp.
use mathlib.Core.Option
use audd_cpp.Prelude.{none, some, [], ◌∷◌, map}
use audd_cpp.Json.{Json, null, find}
use audd_cpp.Platform.{Platform}
use audd_cpp.Coerce.{j_str, j_int, j_bool}
use audd_cpp.Recognition.{
  AppleMusicMetadata, SpotifyMetadata, DeezerMetadata, NapsterMetadata, MusicBrainzEntry, Blocks,
}
use audd_cpp.Parse.Extras.{extract_extras, array_at, object_at}

module _ (P : Platform) where
  open P use {Double, dump}

  unfoldable pub parse_apple_music : Json Double → AppleMusicMetadata Double
  parse_apple_music j = record {
    artist_name = j_str P j "artistName";
    url = j_str P j "url";
    duration_in_millis = j_int P j "durationInMillis";
    name = j_str P j "name";
    isrc = j_str P j "isrc";
    album_name = j_str P j "albumName";
    track_number = j_int P j "trackNumber";
    composer_name = j_str P j "composerName";
    disc_number = j_int P j "discNumber";
    release_date = j_str P j "releaseDate";
    extras = extract_extras j (
        "artistName" ∷ "url" ∷ "durationInMillis" ∷ "name" ∷ "isrc" ∷ "albumName" ∷ "trackNumber"
        ∷ "composerName" ∷ "discNumber" ∷ "releaseDate" ∷ []);
    raw_response = dump j;
  }

  unfoldable pub parse_spotify : Json Double → SpotifyMetadata Double
  parse_spotify j = record {
    id = j_str P j "id";
    name = j_str P j "name";
    duration_ms = j_int P j "duration_ms";
    explicit_ = j_bool P j "explicit";
    popularity = j_int P j "popularity";
    track_number = j_int P j "track_number";
    type = j_str P j "type";
    uri = j_str P j "uri";
    extras = extract_extras j (
        "id" ∷ "name" ∷ "duration_ms" ∷ "explicit" ∷ "popularity" ∷ "track_number" ∷ "type" ∷ "uri"
        ∷ []);
    raw_response = dump j;
  }

  unfoldable pub parse_deezer : Json Double → DeezerMetadata Double
  parse_deezer j = record {
    id = j_int P j "id";
    title = j_str P j "title";
    duration = j_int P j "duration";
    link = j_str P j "link";
    extras = extract_extras j ("id" ∷ "title" ∷ "duration" ∷ "link" ∷ []);
    raw_response = dump j;
  }

  unfoldable pub parse_napster : Json Double → NapsterMetadata Double
  parse_napster j = record {
    id = j_str P j "id";
    name = j_str P j "name";
    isrc = j_str P j "isrc";
    artist_name = j_str P j "artistName";
    album_name = j_str P j "albumName";
    extras = extract_extras j ("id" ∷ "name" ∷ "isrc" ∷ "artistName" ∷ "albumName" ∷ []);
    raw_response = dump j;
  }

  -- `score` is the member as it is, null without one.
  unfoldable pub parse_musicbrainz : Json Double → MusicBrainzEntry Double
  unfolding find
  parse_musicbrainz j = record {
    id = j_str P j "id";
    score = elim (find j "score") [ none ↦ null | some v ↦ v ];
    title = j_str P j "title";
    length = j_int P j "length";
    extras = extract_extras j ("id" ∷ "score" ∷ "title" ∷ "length" ∷ []);
    raw_response = dump j;
  }

  -- The part that `parse_recognition` and `parse_stream_callback_song` share.
  unfoldable pub parse_blocks : Json Double → Blocks Double
  parse_blocks j = record {
    apple_music = Option.map parse_apple_music (object_at j "apple_music");
    spotify = Option.map parse_spotify (object_at j "spotify");
    deezer = Option.map parse_deezer (object_at j "deezer");
    napster = Option.map parse_napster (object_at j "napster");
    musicbrainz = map parse_musicbrainz (array_at j "musicbrainz");
  }
