-- ===== src/Http/Header.antt =====
-- `capture_request_id` of src/http_client.cpp.
use audd_cpp.Prelude.{
  ℕ, Bool, ◌&&◌, ◌||◌, List, [], ◌∷◌, length, take, drop, ltb, ◌==◌, if◌then◌else◌, map,
}
use audd_cpp.Prelude.Text.{Text, utf8, text_eq, is_empty}
use audd_cpp.Coerce.{to_lower}

abbrev pub header_name : Text
header_name = utf8 "x-request-id:"

abbrev pub is_blank : ℕ → Bool
is_blank c = c == b' ' || c == 0x09

abbrev pub is_line_blank : ℕ → Bool
is_line_blank c = is_blank c || c == 0x0d || c == 0x0a

-- From `find_first_not_of(" \t")` on.
unfoldable pub skip_blanks : Text → Text
skip_blanks [] = []
skip_blanks (c ∷ s) = if is_blank c then skip_blanks s else c ∷ s

-- Up to `find_last_not_of(" \t\r\n")`.
unfoldable pub cut_blanks : Text → Text
cut_blanks [] = []
cut_blanks (c ∷ s) =
    let rest = cut_blanks s in if is_empty rest && is_line_blank c then [] else c ∷ rest

-- One call of the header callback: `line` is the buffer, `out` the request id so far. A value with no
-- character left leaves it.
unfoldable pub capture_request_id : Text → Text → Text
unfolding skip_blanks cut_blanks text_eq
capture_request_id line out =
    let found = ltb 13 (length line) && text_eq (map to_lower (take 13 line)) header_name in
    let value = cut_blanks (skip_blanks (drop 13 line)) in
    if found then (if is_empty value then out else value) else out

-- The callback on each header line.
unfoldable pub capture_request_ids : List Text → Text → Text
unfolding capture_request_id
capture_request_ids [] out = out
capture_request_ids (line ∷ lines) out = capture_request_ids lines (capture_request_id line out)
