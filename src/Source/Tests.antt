-- ===== src/Source/Tests.antt =====
-- An example of the name of a file.
use audd_cpp.Prelude.{◌≡◌, refl}
use audd_cpp.Prelude.Text.{utf8}
use audd_cpp.Source.{base_name}

name_of_song : base_name (utf8 "/music/a.mp3") ≡ utf8 "a.mp3"
unfolding base_name
name_of_song = refl
