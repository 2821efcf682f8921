-- ===== src/Examples/Csv/Reader.antt =====
-- A reader of comma-separated values, and what it makes of the fields of examples/stream_to_csv.cpp.
use mathlib.Core.List.{append-nil, append_assoc}
use audd_cpp.Prelude.{
  ℕ, suc, ◌≡◌, refl, ap, true, false, List, [], ◌∷◌, ◌++◌, map, ◌==◌, if◌then◌else◌, All, arith,
  Bool-cases, inl, inr,
}
use audd_cpp.Prelude.Int.{ℤ, pos, negsuc}
use audd_cpp.Prelude.Text.{Text}
use audd_cpp.Prelude.Decimal.{to_string, is_digit, print_digits-is_digit}
use audd_cpp.Examples.Csv.{comma, quote, newline, needs_quotes, double_quotes, csv_escape, line}

-- Where the reader is: at the start of a field, in a plain one, between quotes, or behind a quote that
-- ends the field unless another follows it.
pub data Mode : Type 0 where
  fresh plain quoted closing : Mode

-- The field that is read, the fields behind it in its row, and the rows behind that.
abbrev pub Pieces : Type 0
Pieces = Text × List Text × List (List Text)

abbrev pub more : ℕ → Pieces → Pieces
more c (field, fields, rows) = (c ∷ field, fields, rows)

abbrev pub end_field : Pieces → Pieces
end_field (field, fields, rows) = ([], field ∷ fields, rows)

abbrev pub end_row : Pieces → Pieces
end_row (field, fields, rows) = ([], [], (field ∷ fields) ∷ rows)

abbrev pub last_row : Pieces → List (List Text)
last_row (field, fields, rows) = (field ∷ fields) ∷ rows

-- A byte outside of quotes; `next` and `rest` are what is read behind a separator and behind the byte.
abbrev pub outside : ℕ → Pieces → Pieces → Pieces
outside c next rest =
    if c == comma then end_field next else if c == newline then end_row next else more c rest

pub pieces : Mode → Text → Pieces
pieces mode [] = ([], [], [])
pieces fresh (c ∷ s) =
    let open_quote = pieces quoted s in
    let other = outside c (pieces fresh s) (pieces plain s) in
    if c == quote then open_quote else other
pieces plain (c ∷ s) = outside c (pieces fresh s) (pieces plain s)
pieces quoted (c ∷ s) =
    let after = pieces closing s in
    let inside = more c (pieces quoted s) in if c == quote then after else inside
pieces closing (c ∷ s) =
    let inside = more c (pieces quoted s) in
    let other = outside c (pieces fresh s) (pieces plain s) in if c == quote then inside else other

-- The rows of a text, each a list of fields. Behind the last line end there is a row of one empty field.
unfoldable pub read_csv : Text → List (List Text)
unfolding pieces
read_csv s = last_row (pieces fresh s)

-- An empty text has one row, of an empty field.
pub nothing_lem : last_row (pieces fresh []) ≡ ([] ∷ []) ∷ []
unfolding pieces
nothing_lem = refl

abbrev pub put : Text → Pieces → Pieces
put [] p = p
put (c ∷ s) p = more c (put s p)

put_lem : (s : Text) (p : Pieces) → put s p ≡ (s ++ p.0, p.1, p.2)
put_lem [] p = refl
put_lem (c ∷ s) p = ap (more c) (put_lem s p)

needs_none :
    (x : ℕ) (s : Text)
    → needs_quotes (x ∷ s) ≡ false
    → ((x == comma) ≡ false)
      × ((x == quote) ≡ false)
      × ((x == newline) ≡ false)
      × (needs_quotes s ≡ false)
needs_none x s h = ground (arith, h)

-- A plain text in front of a separator is read as it stands.
plain_lem :
    (s : Text) (c : ℕ) (rest : Text)
    → needs_quotes s ≡ false
    → pieces plain (s ++ c ∷ rest) ≡ put s (pieces plain (c ∷ rest))
unfolding pieces
plain_lem [] c rest h = refl
plain_lem (x ∷ s) c rest h =
    let n = needs_none x s h in rw (n.0, n.2) (ap (more x) (plain_lem s c rest n.3))

quoted_lem :
    (s rest : Text) → pieces quoted (double_quotes s ++ quote ∷ rest) ≡ put s (pieces closing rest)
unfolding pieces double_quotes
quoted_lem [] rest = refl
quoted_lem (c ∷ s) rest = elim (Bool-cases (c == quote)) [
  | inl h ↦ rw (h, h) (ap (more c) (quoted_lem s rest))
  | inr h ↦ rw (h, h) (ap (more c) (quoted_lem s rest))
]

fresh_lem :
    (s : Text) (c : ℕ) (rest : Text)
    → needs_quotes s ≡ false
    → (c == quote) ≡ false
    → pieces fresh (s ++ c ∷ rest) ≡ put s (pieces plain (c ∷ rest))
unfolding pieces
fresh_lem [] c rest h e = rw e refl
fresh_lem (x ∷ s) c rest h e =
    let n = needs_none x s h in rw (n.1, n.0, n.2) (ap (more x) (plain_lem s c rest n.3))

-- An escaped text in front of a separator is read back, whatever it holds and whatever follows.
field_lem :
    (s : Text) (c : ℕ) (rest : Text)
    → (c == quote) ≡ false
    → pieces fresh (csv_escape s ++ c ∷ rest)
      ≡ put s (outside c (pieces fresh rest) (pieces plain rest))
unfolding pieces csv_escape
field_lem s c rest e = elim (Bool-cases (needs_quotes s)) [
  | inl h ↦
      rw (h, append_assoc (double_quotes s) (quote ∷ []) (c ∷ rest), quoted_lem s (c ∷ rest), e)
        refl
  | inr h ↦ rw (h, fresh_lem s c rest h e) refl
]

-- A line of escaped fields is read as these fields, and what follows as the rows behind them.
pub line_lem :
    (s : Text) (fields : List Text) (rest : Text)
    → pieces fresh (line (map csv_escape (s ∷ fields)) ++ rest)
      ≡ (s, fields, last_row (pieces fresh rest))
unfolding line
line_lem s [] rest =
    rw
      (
        append_assoc (csv_escape s) (newline ∷ []) rest,
        field_lem s newline rest refl,
        put_lem s (end_row (pieces fresh rest)),
        append-nil s,
      )
      refl
line_lem s (t ∷ fields) rest =
    rw
      (
        append_assoc (csv_escape s) (comma ∷ line (map csv_escape (t ∷ fields))) rest,
        field_lem s comma (line (map csv_escape (t ∷ fields)) ++ rest) refl,
        line_lem t fields rest,
        put_lem s ([], t ∷ fields, last_row (pieces fresh rest)),
        append-nil s,
      )
      refl

digits_lem : (s : Text) → All (λ c. is_digit c ≡ true) s → needs_quotes s ≡ false
digits_lem [] h = refl
digits_lem (c ∷ s) h = let rest = digits_lem s h.1 in ground arith

plain_number : (v : ℤ) → needs_quotes (to_string v) ≡ false
unfolding to_string
plain_number (pos n) = digits_lem _ (print_digits-is_digit (suc n) n [] tt)
plain_number (negsuc n) = digits_lem _ (print_digits-is_digit (suc (suc n)) (suc n) [] tt)

-- A number has nothing to escape.
pub csv_escape-to_string : (v : ℤ) → csv_escape (to_string v) ≡ to_string v
unfolding csv_escape
csv_escape-to_string v = rw (plain_number v) refl
