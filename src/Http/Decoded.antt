-- ===== src/Http/Decoded.antt =====
-- The query that src/http_client.cpp builds, read back.
use mathlib.Core.List.{append_assoc, append-nil}
use audd_cpp.Prelude.{
  ℕ, ◌≡◌, refl, sym, ap, ◌∙◌, false, List, [], ◌∷◌, ◌++◌, map, All, ◌==◌, arith, if◌then◌else◌,
  Bool-cases, inl, inr, none, some,
}
use audd_cpp.Prelude.Text.{Text, utf8, is_empty, has_byte, before_byte, after_byte}
use audd_cpp.Prelude.Dict.{Dict}
use audd_cpp.Http.Transport.{Curl}
use audd_cpp.Http.Query.{url_encode, build_query}
use audd_cpp.Url.Pieces.{pieces}

-- What a server reads: the pieces between the `&`s, each split at its first `=`, and unescaped.
abbrev pub split_piece : (Text → Text) → Text → Text × Text
split_piece unescape piece = (
  unescape (before_byte b'=' piece),
  elim (after_byte b'=' piece) [ none ↦ [] | some v ↦ unescape v ],
)

abbrev pub decode_query : (Text → Text) → Text → List (Text × Text)
decode_query unescape query =
    if is_empty query then [] else map (split_piece unescape) (pieces query)

abbrev pub entries : Dict Text → List (Text × Text)
entries [] = []
entries ((k, v) ∷ m) = (utf8 k, v) ∷ entries m

not_empty : (c : ℕ) (s rest : Text) → is_empty (s ++ c ∷ rest) ≡ false
not_empty c [] rest = refl
not_empty c (x ∷ s) rest = refl

still_full : (s rest : Text) → is_empty s ≡ false → is_empty (s ++ rest) ≡ false
still_full [] rest h = absurd (ground (arith, h))
still_full (x ∷ s) rest h = refl

module _ (C : Curl) (unescape : Text → Text) where
  -- The escaped text has no separator and is read back.
  abbrev pub IsEscaped : Text → Type 0
  IsEscaped s =
      (has_byte b'&' (url_encode C s) ≡ false)
      × (has_byte b'=' (url_encode C s) ≡ false)
      × (unescape (url_encode C s) ≡ s)

  pieces_one : (s : Text) → has_byte b'&' s ≡ false → pieces s ≡ s ∷ []
  pieces_one [] h = refl
  pieces_one (c ∷ s) h = elim (Bool-cases (c == b'&')) [
    | inl e ↦ absurd (ground (arith, h, e))
    | inr e ↦ rw (e, pieces_one s (ground (arith, h, e))) refl
  ]

  pieces-append :
      (s rest : Text) → has_byte b'&' s ≡ false → pieces (s ++ b'&' ∷ rest) ≡ s ∷ pieces rest
  pieces-append [] rest h = refl
  pieces-append (c ∷ s) rest h = elim (Bool-cases (c == b'&')) [
    | inl e ↦ absurd (ground (arith, h, e))
    | inr e ↦ rw (e, pieces-append s rest (ground (arith, h, e))) refl
  ]

  before_byte-append :
      (c : ℕ) (s rest : Text) → has_byte c s ≡ false → before_byte c (s ++ c ∷ rest) ≡ s
  before_byte-append c [] rest h = ground arith
  before_byte-append c (x ∷ s) rest h = elim (Bool-cases (x == c)) [
    | inl e ↦ absurd (ground (arith, h, e))
    | inr e ↦ rw (e, before_byte-append c s rest (ground (arith, h, e))) refl
  ]

  after_byte-append :
      (c : ℕ) (s rest : Text) → has_byte c s ≡ false → after_byte c (s ++ c ∷ rest) ≡ some rest
  after_byte-append c [] rest h = ground arith
  after_byte-append c (x ∷ s) rest h = elim (Bool-cases (x == c)) [
    | inl e ↦ absurd (ground (arith, h, e))
    | inr e ↦ rw (e, after_byte-append c s rest (ground (arith, h, e))) refl
  ]

  has_byte-append :
      (c d : ℕ) (s rest : Text)
      → has_byte c s ≡ false
      → (d == c) ≡ false
      → has_byte c rest ≡ false
      → has_byte c (s ++ d ∷ rest) ≡ false
  has_byte-append c d [] rest h e r = rw e r
  has_byte-append c d (x ∷ s) rest h e r = elim (Bool-cases (x == c)) [
    | inl eq ↦ absurd (ground (arith, h, eq))
    | inr ne ↦ rw ne (has_byte-append c d s rest (ground (arith, h, ne)) e r)
  ]

  abbrev piece_of : Text → Text → Text
  piece_of k v = url_encode C k ++ b'=' ∷ url_encode C v

  split_piece_of :
      (k v : Text) → IsEscaped k → IsEscaped v → split_piece unescape (piece_of k v) ≡ (k, v)
  split_piece_of k v hk hv =
      rw
        (
          before_byte-append b'=' (url_encode C k) (url_encode C v) hk.1,
          after_byte-append b'=' (url_encode C k) (url_encode C v) hk.1,
          hk.2,
          hv.2,
        )
        refl

  full_piece : (k v : Text) → is_empty (piece_of k v) ≡ false
  full_piece k v = not_empty b'=' (url_encode C k) (url_encode C v)

  -- What the loop puts behind the first parameter.
  abbrev joined_tail : Dict Text → Text
  joined_tail [] = []
  joined_tail ((k, v) ∷ m) = b'&' ∷ (piece_of (utf8 k) v ++ joined_tail m)

  build_query-joined_tail :
      (out : Text) (m : Dict Text)
      → is_empty out ≡ false
      → build_query C out m ≡ out ++ joined_tail m
  unfolding build_query
  build_query-joined_tail out [] h = sym (append-nil out)
  build_query-joined_tail out ((k, v) ∷ m) h =
      let piece = piece_of (utf8 k) v in
      ap (λ b. build_query C ((if b then out else out ++ b'&' ∷ []) ++ piece) m) h
      ∙ build_query-joined_tail ((out ++ b'&' ∷ []) ++ piece) m
          (still_full (out ++ b'&' ∷ []) piece (not_empty b'&' out []))
      ∙ append_assoc (out ++ b'&' ∷ []) piece (joined_tail m)
      ∙ append_assoc out (b'&' ∷ []) (piece ++ joined_tail m)

  clean : (k v : Text) → IsEscaped k → IsEscaped v → has_byte b'&' (piece_of k v) ≡ false
  clean k v hk hv = has_byte-append b'&' b'=' (url_encode C k) (url_encode C v) hk.0 refl hv.0

  decode_tail :
      (k v : Text) (m : Dict Text)
      → IsEscaped k
      → IsEscaped v
      → All (λ (e : Text × Text). IsEscaped e.0 × IsEscaped e.1) (entries m)
      → map (split_piece unescape) (pieces (piece_of k v ++ joined_tail m)) ≡ (k, v) ∷ entries m
  decode_tail k v [] hk hv h =
      ap (λ s. map (split_piece unescape) (pieces s)) (append-nil (piece_of k v))
      ∙ ap (map (split_piece unescape)) (pieces_one (piece_of k v) (clean k v hk hv))
      ∙ ap (λ e. e ∷ []) (split_piece_of k v hk hv)
  decode_tail k v ((k', v') ∷ m) hk hv h =
      let rest = piece_of (utf8 k') v' ++ joined_tail m in
      ap (map (split_piece unescape)) (pieces-append (piece_of k v) rest (clean k v hk hv))
      ∙ ap (λ e. e ∷ map (split_piece unescape) (pieces rest)) (split_piece_of k v hk hv)
      ∙ ap (λ es. (k, v) ∷ es) (decode_tail (utf8 k') v' m h.0.0 h.0.1 h.1)

  -- A server that splits the query of a request at its `&`s and each piece at its first `=`, and unescapes
  -- both sides, reads the parameters that were given, each once and in the order of their keys: no value can
  -- add or change another, where each key and each value is escaped to a text without `&` and `=` that
  -- unescapes to it.
  pub decode_query-build_query :
      (m : Dict Text)
      → All (λ (e : Text × Text). IsEscaped e.0 × IsEscaped e.1) (entries m)
      → decode_query unescape (build_query C [] m) ≡ entries m
  unfolding build_query
  decode_query-build_query [] h = refl
  decode_query-build_query ((k, v) ∷ m) h =
      let piece = piece_of (utf8 k) v in
      ap (decode_query unescape) (build_query-joined_tail piece m (full_piece (utf8 k) v))
      ∙ ap (λ b. if b then [] else map (split_piece unescape) (pieces (piece ++ joined_tail m)))
          (still_full piece (joined_tail m) (full_piece (utf8 k) v))
      ∙ decode_tail (utf8 k) v m h.0.0 h.0.1 h.1
