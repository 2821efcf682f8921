-- ===== src/Examples/Csv.antt =====
-- examples/stream_to_csv.cpp: every match of a subscription is appended to a file.
pub mod Reader
pub mod Sessions
use audd_cpp.Prelude.{ℕ, ◌||◌, Bool, List, [], ◌∷◌, ◌++◌, ◌==◌, if◌then◌else◌}
use audd_cpp.Prelude.Text.{Text, utf8, is_empty, has_byte}
use audd_cpp.Prelude.Decimal.{to_string}
use audd_cpp.Parse.Songs.{StreamCallbackMatch}

abbrev pub comma : ℕ
comma = b','

abbrev pub quote : ℕ
quote = 0x22

abbrev pub newline : ℕ
newline = 0x0a

abbrev pub needs_quotes : Text → Bool
needs_quotes s = has_byte comma s || has_byte quote s || has_byte newline s

-- The loop of `csv_escape`.
unfoldable pub double_quotes : Text → Text
double_quotes [] = []
double_quotes (c ∷ s) = let rest = c ∷ double_quotes s in if c == quote then quote ∷ rest else rest

unfoldable pub csv_escape : Text → Text
unfolding double_quotes
csv_escape s = if needs_quotes s then quote ∷ (double_quotes s ++ quote ∷ []) else s

abbrev pub header : Text
header = utf8 "timestamp,radio_id,artist,title,score,song_link" ++ newline ∷ []

-- The texts with a comma between two of them, and a line end behind the last.
unfoldable pub line : List Text → Text
line [] = newline ∷ []
line (s ∷ []) = s ++ newline ∷ []
line (s ∷ t ∷ later) = s ++ comma ∷ line (t ∷ later)

-- `if (out.tellp() == 0)`: an empty file gets the header.
unfoldable pub open_csv : Text → Text
open_csv file = if is_empty file then header else file

module _ {D : Type 0} where
  -- What the callback for matches writes.
  unfoldable pub csv_row : StreamCallbackMatch D → Text
  unfolding line csv_escape to_string
  csv_row m = line (
      csv_escape m.timestamp
      ∷ to_string m.radio_id
      ∷ csv_escape m.song.artist
      ∷ csv_escape m.song.title
      ∷ to_string m.song.score
      ∷ csv_escape m.song.song_link
      ∷ [])

  unfoldable pub write_rows : List (StreamCallbackMatch D) → Text → Text
  unfolding csv_row
  write_rows [] file = file
  write_rows (m ∷ matches) file = write_rows matches (file ++ csv_row m)

  -- One run of the program, in which the callback is called for each of `matches`.
  unfoldable pub stream_to_csv : List (StreamCallbackMatch D) → Text → Text
  unfolding open_csv write_rows
  stream_to_csv matches file = write_rows matches (open_csv file)
