-- ===== src/Url/Pieces.antt =====
-- The loop of `url_query_has_key`, src/json_parse.cpp, against the pieces of the query.
use audd_cpp.Prelude.{
  ℕ, zero, suc, ◌<◌, ◌≡◌, refl, ap, Bool, false, ◌||◌, Option, none, some, List, [], ◌∷◌, ◌++◌,
  length, any, arith, ◌==◌, if◌then◌else◌, Bool-cases, Option-cases, inl, inr,
}
use audd_cpp.Prelude.Text.{Text, text_eq, after_byte, before_byte, has_byte}
use audd_cpp.Url.{key_of, query_has_key, url_query_has_key}

abbrev pub push_front : ℕ → List Text → List Text
push_front c [] = (c ∷ []) ∷ []
push_front c (p ∷ ps) = (c ∷ p) ∷ ps

-- The texts between the `&`s, in order.
abbrev pub pieces : Text → List Text
pieces [] = [] ∷ []
pieces (c ∷ s) = if c == b'&' then [] ∷ pieces s else push_front c (pieces s)

abbrev pub has_key : Text → List Text → Bool
has_key key ps = any (λ p. text_eq (key_of p) key) ps

abbrev later_pieces : Option Text → List Text
later_pieces none = []
later_pieces (some rest) = pieces rest

cut : (s : Text) → pieces s ≡ before_byte b'&' s ∷ later_pieces (after_byte b'&' s)
cut [] = refl
cut (c ∷ s) = elim (Bool-cases (c == b'&')) [ inl e ↦ rw e refl | inr e ↦ rw (e, cut s) refl ]

shorter : (c : ℕ) (s rest : Text) → after_byte c s ≡ some rest → length rest < length s
shorter c [] rest h = ground (arith, h)
shorter c (x ∷ s) rest h = ground (arith, h, shorter c s rest)

query_has_key-eq :
    (fuel : ℕ) (query key : Text)
    → length query < fuel
    → query_has_key fuel query key ≡ has_key key (pieces query)
unfolding query_has_key
query_has_key-eq zero query key h = absurd (omega arith)
query_has_key-eq (suc fuel) query key h = elim (Option-cases (after_byte b'&' query)) [
  | inl e ↦ rw (cut query, e) (ground arith)
  | inr (rest, e) ↦
      let ih = query_has_key-eq fuel rest key (omega (arith, h, shorter b'&' query rest e)) in
      rw (cut query, e, ih) (ground arith)
]

abbrev pub keys_of_query : Option Text → List Text
keys_of_query none = []
keys_of_query (some query) = pieces query

-- The loop finds a key exactly if one of the pieces between the `&`s of the query has it, whatever the URL:
-- the fuel of the loop is always enough.
pub url_query_has_key-pieces :
    (url key : Text) → url_query_has_key url key ≡ has_key key (keys_of_query (after_byte b'?' url))
unfolding url_query_has_key
url_query_has_key-pieces url key = elim (Option-cases (after_byte b'?' url)) [
  | inl e ↦ rw (url_query_has_key, e) refl
  | inr (query, e) ↦
      rw (url_query_has_key, e) (query_has_key-eq (suc (length query)) query key (omega arith))
]

pub has_key-append :
    (key : Text) (ps qs : List Text) → has_key key (ps ++ qs) ≡ (has_key key ps || has_key key qs)
has_key-append key [] qs = refl
has_key-append key (p ∷ ps) qs = ground (arith, has_key-append key ps qs)

push_front-append :
    (c : ℕ) (s : Text) (qs : List Text)
    → push_front c (pieces s ++ qs) ≡ push_front c (pieces s) ++ qs
push_front-append c s qs = rw (cut s) refl

pub pieces-append : (s t : Text) → pieces (s ++ b'&' ∷ t) ≡ pieces s ++ pieces t
pieces-append [] t = refl
pieces-append (c ∷ s) t = elim (Bool-cases (c == b'&')) [
  | inl e ↦ rw e (ap (λ l. [] ∷ l) (pieces-append s t))
  | inr e ↦ rw (e, pieces-append s t) (push_front-append c s (pieces t))
]

pub pieces_one : (s : Text) → has_byte b'&' s ≡ false → pieces s ≡ s ∷ []
pieces_one [] h = refl
pieces_one (c ∷ s) h = elim (Bool-cases (c == b'&')) [
  | inl e ↦ ground (arith, h, e)
  | inr e ↦
      let later : has_byte b'&' s ≡ false = ground (arith, h, e) in rw (e, pieces_one s later) refl
]
