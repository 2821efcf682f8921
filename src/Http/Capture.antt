-- ===== src/Http/Capture.antt =====
-- The request id that src/http_client.cpp reads from the headers of a response.
use audd_cpp.Prelude.{
  suc, ◌<◌, ◌≡◌, refl, sym, ap, ◌∙◌, Bool, true, false, not, List, [], ◌∷◌, ◌++◌, map, length,
  length-append, take, drop, take-append_eq, drop-append_eq, All, ltb, arith, Bool-cases, inl, inr,
}
use audd_cpp.Prelude.Text.{Text, is_empty, text_eq, text_eq_refl}
use audd_cpp.Platform.{Platform}
use audd_cpp.Coerce.{to_lower}
use audd_cpp.Http.{response_of}
use audd_cpp.Http.Transport.{Curl, Transfer}
use audd_cpp.Http.Header.{
  header_name, is_blank, is_line_blank, skip_blanks, cut_blanks, capture_request_id,
  capture_request_ids,
}

abbrev pub starts_solid : Text → Bool
starts_solid [] = false
starts_solid (c ∷ s) = not (is_blank c)

abbrev pub ends_solid : Text → Bool
ends_solid [] = false
ends_solid (c ∷ []) = not (is_line_blank c)
ends_solid (c ∷ d ∷ s) = ends_solid (d ∷ s)

-- Whether a line names the header, in any case.
abbrev pub names_it : Text → Bool
names_it line = text_eq (map to_lower (take 13 line)) header_name

skip_blanks-append :
    (blanks s : Text)
    → All (λ c. is_blank c ≡ true) blanks
    → skip_blanks (blanks ++ s) ≡ skip_blanks s
unfolding skip_blanks
skip_blanks-append [] s h = refl
skip_blanks-append (c ∷ blanks) s h = rw h.0 (skip_blanks-append blanks s h.1)

skip_blanks_solid : (v s : Text) → starts_solid v ≡ true → skip_blanks (v ++ s) ≡ v ++ s
unfolding skip_blanks
skip_blanks_solid [] s h = absurd (ground (arith, h))
skip_blanks_solid (c ∷ v) s h = elim (Bool-cases (is_blank c)) [
  | inl e ↦ absurd (ground (arith, h, e))
  | inr e ↦ rw e refl
]

cut_blanks_blank : (s : Text) → All (λ c. is_line_blank c ≡ true) s → cut_blanks s ≡ []
unfolding cut_blanks
cut_blanks_blank [] h = refl
cut_blanks_blank (c ∷ s) h = rw (cut_blanks_blank s h.1, h.0) refl

cut_blanks-append :
    (v s : Text)
    → ends_solid v ≡ true
    → All (λ c. is_line_blank c ≡ true) s
    → cut_blanks (v ++ s) ≡ v
unfolding cut_blanks
cut_blanks-append [] s h b = absurd (ground (arith, h))
cut_blanks-append (c ∷ []) s h b = elim (Bool-cases (is_line_blank c)) [
  | inl e ↦ absurd (ground (arith, h, e))
  | inr e ↦ rw (cut_blanks_blank s b, e) refl
]
cut_blanks-append (c ∷ d ∷ v) s h b = rw (cut_blanks-append (d ∷ v) s h b) refl

length-map : {A B : Type 0} (f : A → B) (xs : List A) → length (map f xs) ≡ length xs
length-map f [] = refl
length-map f (x ∷ xs) = ap suc (length-map f xs)

solid_size : (v : Text) → starts_solid v ≡ true → 0 < length v
solid_size [] h = absurd (ground (arith, h))
solid_size (c ∷ v) h = omega arith

solid_full : (v : Text) → starts_solid v ≡ true → is_empty v ≡ false
solid_full [] h = absurd (ground (arith, h))
solid_full (c ∷ v) h = refl

module _ (name blanks value ending : Text) (named : map to_lower name ≡ header_name)
    (blank : All (λ c. is_blank c ≡ true) blanks) (starts : starts_solid value ≡ true)
    (ends : ends_solid value ≡ true) (ended : All (λ c. is_line_blank c ≡ true) ending) where
  abbrev line : Text
  line = name ++ (blanks ++ (value ++ ending))

  size : 13 ≡ length name
  size = ap length (sym named) ∙ length-map to_lower name

  long_enough : ltb 13 (length line) ≡ true
  long_enough = ground (
    arith,
    size,
    length-append name (blanks ++ (value ++ ending)),
    length-append blanks (value ++ ending),
    length-append value ending,
    solid_size value starts,
  )

  it_names : names_it line ≡ true
  it_names =
      ap (λ t. text_eq (map to_lower t) header_name)
        (take-append_eq 13 name (blanks ++ (value ++ ending)) size)
      ∙ ap (λ t. text_eq t header_name) named
      ∙ text_eq_refl header_name

  it_reads : cut_blanks (skip_blanks (drop 13 line)) ≡ value
  it_reads =
      ap (λ t. cut_blanks (skip_blanks t))
        (drop-append_eq 13 name (blanks ++ (value ++ ending)) size)
      ∙ ap cut_blanks (
          skip_blanks-append blanks (value ++ ending) blank ∙ skip_blanks_solid value ending starts)
      ∙ cut_blanks-append value ending ends ended

  captures : (out : Text) → capture_request_id line out ≡ value
  unfolding capture_request_id
  captures out = rw (long_enough, it_names, it_reads, solid_full value starts) refl

captures_other : (l out : Text) → names_it l ≡ false → capture_request_id l out ≡ out
unfolding capture_request_id
captures_other l out h = elim (Bool-cases (ltb 13 (length l))) [
  | inl e ↦ rw (e, h) refl
  | inr e ↦ rw e refl
]

captures_others :
    (ls : List Text) (out : Text)
    → All (λ l. names_it l ≡ false) ls
    → capture_request_ids ls out ≡ out
unfolding capture_request_ids
captures_others [] out h = refl
captures_others (l ∷ ls) out h = rw (captures_other l out h.0) (captures_others ls out h.1)

capture_request_ids-append :
    (ls ms : List Text) (out : Text)
    → capture_request_ids (ls ++ ms) out ≡ capture_request_ids ms (capture_request_ids ls out)
unfolding capture_request_ids
capture_request_ids-append [] ms out = refl
capture_request_ids-append (l ∷ ls) ms out =
    capture_request_ids-append ls ms (capture_request_id l out)

-- The request id of a response is the value of its last `X-Request-Id` header, where that is not blank: the
-- name counts in upper and lower case, and the spaces and tabs before the value and the blanks and line end
-- behind it are left out, whatever the headers before it and the other headers behind it are.
pub request_id-response_of :
    (P : Platform) (C : Curl) (t : Transfer) (before after : List Text)
    (name blanks value ending : Text)
    → t.headers ≡ before ++ (name ++ (blanks ++ (value ++ ending))) ∷ after
    → map to_lower name ≡ header_name
    → All (λ c. is_blank c ≡ true) blanks
    → starts_solid value ≡ true
    → ends_solid value ≡ true
    → All (λ c. is_line_blank c ≡ true) ending
    → All (λ l. names_it l ≡ false) after
    → (response_of P C t).request_id ≡ value
unfolding response_of capture_request_ids
request_id-response_of P C t before after name blanks value ending at named blank starts ends ended
      others =
    let l = name ++ (blanks ++ (value ++ ending)) in
    let seen = capture_request_ids before [] in
    ap (λ hs. capture_request_ids hs []) at
    ∙ capture_request_ids-append before (l ∷ after) []
    ∙ ap (capture_request_ids after)
        (captures name blanks value ending named blank starts ends ended seen)
    ∙ captures_others after value others
