-- ===== src/Links.antt =====
-- src/client.cpp: the links of a recognition and of an enterprise match.
pub mod Laws
mod Tests
use audd_cpp.Prelude.{
  ℕ, Bool, true, false, not, ◌&&◌, Option, none, some, List, [], ◌∷◌, ◌++◌, any, ◌==◌, ◌||◌,
  if◌then◌else◌, String,
}
use audd_cpp.Prelude.Text.{Text, utf8, text_eq, is_empty, has_byte, starts_with}
use audd_cpp.Prelude.Dict.{Dict, lookup}
use audd_cpp.Json.{Json, str, object, array, find, elements}
use audd_cpp.Recognition.{
  AppleMusicMetadata, SpotifyMetadata, DeezerMetadata, NapsterMetadata, Blocks, StreamingProvider,
  spotify, apple_music, deezer, napster, youtube, streaming_provider_name, all_streaming_providers,
}

-- What follows the first `//`, `none` for `npos`.
unfoldable pub after_slashes : Text → Option Text
after_slashes [] = none
after_slashes (c ∷ []) = none
after_slashes (c ∷ d ∷ s) = if c == b'/' && d == b'/' then some s else after_slashes (d ∷ s)

abbrev pub ends_host : ℕ → Bool
ends_host c = c == b'/' || c == b'?' || c == b'#'

-- Up to `find_first_of("/?#")`.
unfoldable pub host_of : Text → Text
host_of [] = []
host_of (c ∷ s) = if ends_host c then [] else c ∷ host_of s

unfoldable pub lis_tn_streaming_url : Text → Text → Text
unfolding after_slashes host_of text_eq
lis_tn_streaming_url song_link qparam = elim (after_slashes song_link) [
  | none ↦ []
  | some rest ↦
      if text_eq (host_of rest) (utf8 "lis.tn")
      then song_link ++ ((if has_byte b'?' song_link then b'&' else b'?') ∷ qparam)
      else []
]

unfoldable pub thumbnail_url : Text → Text
unfolding lis_tn_streaming_url
thumbnail_url song_link = lis_tn_streaming_url song_link (utf8 "thumb")

-- The first of two texts that is not empty.
infixr 30 ◌or_else◌
abbrev pub ◌or_else◌ : Text → Text → Text
s or_else t = if is_empty s then t else s

-- The loop of `streaming_urls`; the providers come in the order of the map.
abbrev pub resolved :
    (StreamingProvider → Text) → List StreamingProvider → List (StreamingProvider × Text)
resolved url [] = []
resolved url (p ∷ ps) =
    let rest = resolved url ps in if is_empty (url p) then rest else (p, url p) ∷ rest

module _ {D : Type 0} where
  -- A text member; every other value, and none, counts as empty.
  abbrev pub text_of : Option (Json D) → Text
  text_of none = []
  text_of (some (str s)) = s
  text_of (some v) = []

  abbrev pub find_in : Option (Json D) → String → Option (Json D)
  find_in none key = none
  find_in (some v) key = find v key

  abbrev pub first_of_array : Option (Json D) → Option (Json D)
  first_of_array none = none
  first_of_array (some v) = elim (elements v) [ [] ↦ none | v ∷ vs ↦ some v ]

  -- The direct link of a metadata block, empty where there is none.
  unfoldable pub direct_url : Blocks D → StreamingProvider → Text
  unfolding lookup find
  direct_url b apple_music = elim b.apple_music [ none ↦ [] | some m ↦ m.url ]
  direct_url b spotify = elim b.spotify [
    | none ↦ []
    | some m ↦ text_of (find_in (lookup "external_urls" m.extras) "spotify") or_else m.uri
  ]
  direct_url b deezer = elim b.deezer [ none ↦ [] | some m ↦ m.link ]
  direct_url b napster = elim b.napster [ none ↦ [] | some m ↦ text_of (lookup "href" m.extras) ]
  direct_url b youtube = []

  -- `RecognitionResult::streaming_url`
  unfoldable pub streaming_url : Blocks D → Text → StreamingProvider → Text
  unfolding direct_url lis_tn_streaming_url streaming_provider_name
  streaming_url b song_link provider =
      direct_url b provider
      or_else lis_tn_streaming_url song_link (streaming_provider_name provider)

  unfoldable pub streaming_urls : Blocks D → Text → List (StreamingProvider × Text)
  unfolding streaming_url
  streaming_urls b song_link = resolved (streaming_url b song_link) all_streaming_providers

  unfoldable pub preview_url : Blocks D → Text
  unfolding lookup find
  preview_url b =
      (elim b.apple_music [
        | none ↦ []
        | some m ↦ text_of (find_in (first_of_array (lookup "previews" m.extras)) "url")
      ])
      or_else (elim b.spotify [ none ↦ [] | some m ↦ text_of (lookup "preview_url" m.extras) ])
      or_else (elim b.deezer [ none ↦ [] | some m ↦ text_of (lookup "preview" m.extras) ])

-- `EnterpriseMatch::streaming_url` and `streaming_urls`
unfoldable pub match_streaming_url : Text → StreamingProvider → Text
unfolding lis_tn_streaming_url streaming_provider_name
match_streaming_url song_link provider =
    lis_tn_streaming_url song_link (streaming_provider_name provider)

unfoldable pub match_streaming_urls : Text → List (StreamingProvider × Text)
unfolding match_streaming_url
match_streaming_urls song_link = resolved (match_streaming_url song_link) all_streaming_providers
