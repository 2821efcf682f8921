-- ===== src/Examples/Csv/Sessions.antt =====
-- What a reader makes of the file that the runs of examples/stream_to_csv.cpp leave.
use mathlib.Core.List.{append-nil, append_assoc}
use audd_cpp.Prelude.{◌≡◌, refl, sym, ◌∙◌, ap, List, [], ◌∷◌, ◌++◌, map}
use audd_cpp.Prelude.Text.{Text, utf8}
use audd_cpp.Prelude.Decimal.{to_string}
use audd_cpp.Parse.Songs.{StreamCallbackMatch}
use audd_cpp.Examples.Csv.{csv_escape, line, header, csv_row, open_csv, write_rows, stream_to_csv}
use audd_cpp.Examples.Csv.Reader.{
  Mode, pieces, last_row, read_csv, line_lem, nothing_lem, csv_escape-to_string,
}

abbrev later_names : List Text
later_names = utf8 "radio_id" ∷ utf8 "artist" ∷ utf8 "title" ∷ utf8 "score" ∷ utf8 "song_link" ∷ []

-- The names and the fields that a reader is to find.
abbrev pub names : List Text
names = utf8 "timestamp" ∷ later_names

header_lem : header ≡ line (map csv_escape names)
unfolding line csv_escape
header_lem = refl

module _ {D : Type 0} where
  abbrev pub tail_fields : StreamCallbackMatch D → List Text
  tail_fields m =
      to_string m.radio_id
      ∷ m.song.artist
      ∷ m.song.title
      ∷ to_string m.song.score
      ∷ m.song.song_link
      ∷ []

  abbrev pub fields : StreamCallbackMatch D → List Text
  fields m = m.timestamp ∷ tail_fields m

  -- The matches of all the runs.
  abbrev pub all_matches : List (List (StreamCallbackMatch D)) → List (StreamCallbackMatch D)
  all_matches [] = []
  all_matches (matches ∷ runs) = matches ++ all_matches runs

  -- The file behind one run after another.
  unfoldable pub run_all : List (List (StreamCallbackMatch D)) → Text → Text
  unfolding stream_to_csv
  run_all [] file = file
  run_all (matches ∷ runs) file = run_all runs (stream_to_csv matches file)

  abbrev rows : List (StreamCallbackMatch D) → Text
  rows [] = []
  rows (m ∷ matches) = csv_row m ++ rows matches

  rows-append :
      (front back : List (StreamCallbackMatch D)) → rows (front ++ back) ≡ rows front ++ rows back
  rows-append [] back = refl
  rows-append (m ∷ front) back =
      rw (rows-append front back, append_assoc (csv_row m) (rows front) (rows back)) refl

  write_rows_lem :
      (matches : List (StreamCallbackMatch D)) (file : Text)
      → write_rows matches file ≡ file ++ rows matches
  unfolding write_rows
  write_rows_lem [] file = sym (append-nil file)
  write_rows_lem (m ∷ matches) file =
      write_rows_lem matches (file ++ csv_row m) ∙ append_assoc file (csv_row m) (rows matches)

  -- Behind the first run the file has its header, and each run adds its rows.
  run_all_lem :
      (runs : List (List (StreamCallbackMatch D))) (written : Text)
      → run_all runs (header ++ written) ≡ header ++ (written ++ rows (all_matches runs))
  unfolding run_all stream_to_csv open_csv
  run_all_lem [] written = ap (λ t. header ++ t) (sym (append-nil written))
  run_all_lem (matches ∷ runs) written =
      ap (run_all runs) (write_rows_lem matches (header ++ written))
      ∙ run_all_lem runs (written ++ rows matches)
      ∙ ap (λ t. header ++ t)
          (append_assoc written (rows matches) (rows (all_matches runs))
            ∙ ap (λ t. written ++ t) (sym (rows-append matches (all_matches runs))))

  csv_row_lem : (m : StreamCallbackMatch D) → csv_row m ≡ line (map csv_escape (fields m))
  unfolding csv_row
  csv_row_lem m = simp csv_escape-to_string

  read_rows :
      (matches : List (StreamCallbackMatch D))
      → last_row (pieces Mode.fresh (rows matches)) ≡ map fields matches ++ ([] ∷ []) ∷ []
  read_rows [] = nothing_lem
  read_rows (m ∷ matches) =
      rw (csv_row_lem m, line_lem m.timestamp (tail_fields m) (rows matches), read_rows matches)
        refl

  read_file :
      (matches : List (StreamCallbackMatch D))
      → last_row (pieces Mode.fresh (line (map csv_escape names) ++ rows matches))
        ≡ names ∷ (map fields matches ++ ([] ∷ []) ∷ [])
  read_file matches =
      rw (line_lem (utf8 "timestamp") later_names (rows matches), read_rows matches) refl

  -- However often the program has run on a file that was empty, a reader finds the names of the columns
  -- once and behind them each match of each run, once and in order, with every field as it was, whatever
  -- commas, quotes and line ends the fields hold; and behind the last line end nothing.
  pub read_csv-run_all :
      (matches : List (StreamCallbackMatch D)) (runs : List (List (StreamCallbackMatch D)))
      → read_csv (run_all (matches ∷ runs) [])
        ≡ names ∷ (map fields (all_matches (matches ∷ runs)) ++ ([] ∷ []) ∷ [])
  unfolding read_csv run_all
  read_csv-run_all matches runs =
      ap (λ t. last_row (pieces Mode.fresh (run_all runs t))) (write_rows_lem matches header)
      ∙ ap (λ t. last_row (pieces Mode.fresh t))
          (run_all_lem runs (rows matches)
            ∙ ap (λ t. t ++ (rows matches ++ rows (all_matches runs))) header_lem
            ∙ ap (λ t. line (map csv_escape names) ++ t)
                (sym (rows-append matches (all_matches runs))))
      ∙ read_file (all_matches (matches ∷ runs))
