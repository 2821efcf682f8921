-- ===== src/Parse/Laws.antt =====
-- The offsets that src/json_parse.cpp reads.
use mathlib.Core.List.{append_assoc, append-nil}
use audd_cpp.Prelude.{◌≡◌, refl, ap, sym, ◌∙◌, false, some, [], ◌∷◌, ◌++◌, arith, ◌==◌}
use audd_cpp.Prelude.Int.{pos}
use audd_cpp.Prelude.Text.{Text, has_byte, is_empty}
use audd_cpp.Platform.{Platform}
use audd_cpp.Parse.Offset.{split_colons, parse_component, sum_components, offset_to_seconds}

module _ (P : Platform) where
  open P use {Double, of_int, add, mul}

  abbrev pub step : Double → Double → Double
  step total v = add (mul total (of_int (pos 60))) v

  split_colons-append :
      (cur s t : Text)
      → has_byte b':' s ≡ false
      → split_colons cur (s ++ b':' ∷ t) ≡ (cur ++ s) ∷ split_colons [] t
  unfolding split_colons
  split_colons-append cur [] t h = ap (λ l. l ∷ split_colons [] t) (sym (append-nil cur))
  split_colons-append cur (c ∷ s) t h =
      let other : (c == b':') ≡ false = ground (arith, h) in
      let later : has_byte b':' s ≡ false = ground (arith, h) in
      rw other (
        split_colons-append (cur ++ c ∷ []) s t later
        ∙ ap (λ l. l ∷ split_colons [] t) (append_assoc cur (c ∷ []) s))

  split_colons_one : (cur s : Text) → has_byte b':' s ≡ false → split_colons cur s ≡ (cur ++ s) ∷ []
  unfolding split_colons
  split_colons_one cur [] h = ap (λ l. l ∷ []) (sym (append-nil cur))
  split_colons_one cur (c ∷ s) h =
      let other : (c == b':') ≡ false = ground (arith, h) in
      let later : has_byte b':' s ≡ false = ground (arith, h) in
      rw other
        (split_colons_one (cur ++ c ∷ []) s later ∙ ap (λ l. l ∷ []) (append_assoc cur (c ∷ []) s))

  not_empty : (s t : Text) → is_empty (s ++ b':' ∷ t) ≡ false
  not_empty [] t = refl
  not_empty (c ∷ s) t = refl

  -- `h:m:s` reads as (((0 * 60 + h) * 60 + m) * 60) + s, where the three parts read as numbers and have no
  -- colon.
  pub offset_to_seconds-hms :
      (h m s : Text) (x y z : Double)
      → has_byte b':' h ≡ false
      → has_byte b':' m ≡ false
      → has_byte b':' s ≡ false
      → parse_component P h ≡ some x
      → parse_component P m ≡ some y
      → parse_component P s ≡ some z
      → offset_to_seconds P (h ++ b':' ∷ (m ++ b':' ∷ s))
        ≡ some (step (step (step (of_int (pos 0)) x) y) z)
  unfolding offset_to_seconds sum_components
  offset_to_seconds-hms h m s x y z ph pm ps vx vy vz =
      let last : split_colons [] (m ++ b':' ∷ s) ≡ m ∷ s ∷ [] =
        split_colons-append [] m s pm ∙ ap (λ l. m ∷ l) (split_colons_one [] s ps) in
      let parts : split_colons [] (h ++ b':' ∷ (m ++ b':' ∷ s)) ≡ h ∷ m ∷ s ∷ [] =
        split_colons-append [] h (m ++ b':' ∷ s) ph ∙ ap (λ l. h ∷ l) last in
      rw (offset_to_seconds, not_empty h (m ++ b':' ∷ s), parts, sum_components, vx, vy, vz) refl
