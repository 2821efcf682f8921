-- ===== src/Parse/Tests.antt =====
-- Examples of an offset.
use audd_cpp.Prelude.{◌≡◌, refl, ◌∷◌, ◌++◌, some}
use audd_cpp.Prelude.Int.{pos}
use audd_cpp.Prelude.Text.{utf8}
use audd_cpp.Prelude.Decimal.{from_chars}
use audd_cpp.Platform.Sample.{platform}
use audd_cpp.Parse.Offset.{offset_to_seconds, parse_component}
use audd_cpp.Parse.Laws.{step, offset_to_seconds-hms}

offset_to_seconds-hms_example :
    offset_to_seconds platform (utf8 "1" ++ b':' ∷ (utf8 "02" ++ b':' ∷ utf8 "03"))
    ≡ some (step platform (step platform (step platform (pos 0) (pos 1)) (pos 2)) (pos 3))
unfolding parse_component from_chars
offset_to_seconds-hms_example =
    offset_to_seconds-hms platform (utf8 "1") (utf8 "02") (utf8 "03") (pos 1) (pos 2) (pos 3) refl
      refl refl refl refl refl
