-- ===== src/Http/Query.antt =====
-- `url_encode` and `build_query` of src/http_client.cpp.
use audd_cpp.Prelude.{none, some, [], ◌∷◌, ◌++◌, if◌then◌else◌}
use audd_cpp.Prelude.Text.{Text, utf8, is_empty}
use audd_cpp.Prelude.Dict.{Dict}
use audd_cpp.Http.Transport.{Curl}

module _ (C : Curl) where
  open C use {escape}

  abbrev pub url_encode : Text → Text
  url_encode s = elim (escape s) [ none ↦ s | some enc ↦ enc ]

  -- The loop, with `out` so far.
  unfoldable pub build_query : Text → Dict Text → Text
  build_query out [] = out
  build_query out ((k, v) ∷ params) =
      let joined = if is_empty out then out else out ++ b'&' ∷ [] in
      build_query (joined ++ (url_encode (utf8 k) ++ b'=' ∷ url_encode v)) params
