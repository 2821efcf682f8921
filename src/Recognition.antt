-- ===== src/Recognition.antt =====
-- include/audd/recognition.hpp: the typed results. `D` is `double`.
use audd_cpp.Prelude.{Bool, true, false, not, ◌&&◌, ◌||◌, Option, none, some, List, [], ◌∷◌}
use audd_cpp.Prelude.Int.{ℤ}
use audd_cpp.Prelude.Text.{Text, utf8, is_empty}
use audd_cpp.Prelude.Dict.{Dict}
use audd_cpp.Json.{Json}

pub record AppleMusicMetadata (D : Type 0) : Type 0 where
  pub artist_name : Text
  pub url : Text
  pub duration_in_millis : ℤ
  pub name : Text
  pub isrc : Text
  pub album_name : Text
  pub track_number : ℤ
  pub composer_name : Text
  pub disc_number : ℤ
  pub release_date : Text
  pub extras : Dict (Json D)
  pub raw_response : Text

pub record SpotifyMetadata (D : Type 0) : Type 0 where
  pub id : Text
  pub name : Text
  pub duration_ms : ℤ
  pub explicit_ : Bool
  pub popularity : ℤ
  pub track_number : ℤ
  pub type : Text
  pub uri : Text
  pub extras : Dict (Json D)
  pub raw_response : Text

pub record DeezerMetadata (D : Type 0) : Type 0 where
  pub id : ℤ
  pub title : Text
  pub duration : ℤ
  pub link : Text
  pub extras : Dict (Json D)
  pub raw_response : Text

pub record NapsterMetadata (D : Type 0) : Type 0 where
  pub id : Text
  pub name : Text
  pub isrc : Text
  pub artist_name : Text
  pub album_name : Text
  pub extras : Dict (Json D)
  pub raw_response : Text

pub record MusicBrainzEntry (D : Type 0) : Type 0 where
  pub id : Text
  pub score : Json D
  pub title : Text
  pub length : ℤ
  pub extras : Dict (Json D)
  pub raw_response : Text

-- The five blocks that a recognition and a callback song share.
pub record Blocks (D : Type 0) : Type 0 where
  pub apple_music : Option (AppleMusicMetadata D)
  pub spotify : Option (SpotifyMetadata D)
  pub deezer : Option (DeezerMetadata D)
  pub napster : Option (NapsterMetadata D)
  pub musicbrainz : List (MusicBrainzEntry D)

pub data StreamingProvider : Type 0 where
  spotify apple_music deezer napster youtube : StreamingProvider

unfoldable pub streaming_provider_name : StreamingProvider → Text
streaming_provider_name spotify = utf8 "spotify"
streaming_provider_name apple_music = utf8 "apple_music"
streaming_provider_name deezer = utf8 "deezer"
streaming_provider_name napster = utf8 "napster"
streaming_provider_name youtube = utf8 "youtube"

abbrev pub all_streaming_providers : List StreamingProvider
all_streaming_providers = spotify ∷ apple_music ∷ deezer ∷ napster ∷ youtube ∷ []

pub record RecognitionResult (D : Type 0) : Type 0 where
  pub timecode : Text
  pub audio_id : Option ℤ
  pub artist : Text
  pub title : Text
  pub album : Text
  pub release_date : Text
  pub label : Text
  pub song_link : Text
  pub isrc : Text
  pub upc : Text
  pub blocks : Blocks D
  pub extras : Dict (Json D)
  pub raw_response : Text

pub record EnterpriseMatch (D : Type 0) : Type 0 where
  pub score : ℤ
  pub timecode : Text
  pub audio_id : Option ℤ
  pub artist : Text
  pub title : Text
  pub album : Text
  pub release_date : Text
  pub label : Text
  pub isrc : Text
  pub upc : Text
  pub song_link : Text
  pub start_offset : ℤ
  pub end_offset : ℤ
  pub start_seconds : Option D
  pub end_seconds : Option D
  pub extras : Dict (Json D)
  pub raw_response : Text

pub record EnterpriseChunkResult (D : Type 0) : Type 0 where
  pub songs : List (EnterpriseMatch D)
  pub offset : Text
  pub extras : Dict (Json D)
  pub raw_response : Text

pub record LyricsResult (D : Type 0) : Type 0 where
  pub artist : Text
  pub title : Text
  pub lyrics : Text
  pub song_id : ℤ
  pub media : Text
  pub full_title : Text
  pub artist_id : ℤ
  pub song_link : Text
  pub extras : Dict (Json D)
  pub raw_response : Text

pub record Stream (D : Type 0) : Type 0 where
  pub radio_id : ℤ
  pub url : Text
  pub stream_running : Bool
  pub longpoll_category : Text
  pub extras : Dict (Json D)
  pub raw_response : Text

abbrev pub has_value {ℓ} : {A : Type ℓ} → Option A → Bool
has_value none = false
has_value (some a) = true

-- `is_custom_match` and `is_public_match` of a recognition and of an enterprise match, over the three
-- fields that they read.
unfoldable pub is_custom_match : Option ℤ → Bool
is_custom_match audio_id = has_value audio_id

unfoldable pub is_public_match : Option ℤ → Text → Text → Bool
is_public_match audio_id artist title =
    not (has_value audio_id) && (not (is_empty artist) || not (is_empty title))
