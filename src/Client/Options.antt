-- ===== src/Client/Options.antt =====
-- The options of the two recognition calls, include/audd/recognition.hpp and src/client.cpp.
use audd_cpp.Prelude.{Bool, true, false, Option, none, some, List, String, if◌then◌else◌}
use audd_cpp.Prelude.Int.{ℤ}
use audd_cpp.Prelude.Text.{Text, utf8, is_empty}
use audd_cpp.Prelude.Dict.{Dict, insert, insert_all}
use audd_cpp.Prelude.Decimal.{to_string}
use audd_cpp.Http.{FormFields}
use audd_cpp.Url.{join_csv}

pub record RecognizeOptions : Type 0 where
  pub return_metadata : List Text
  pub market : Text
  pub extra_parameters : Dict Text

pub record EnterpriseOptions : Type 0 where
  pub return_metadata : List Text
  pub skip : Option ℤ
  pub every : Option ℤ
  pub limit : Option ℤ
  pub skip_first_seconds : Option ℤ
  pub use_timecode : Option Bool
  pub accurate_offsets : Option Bool
  pub extra_parameters : Dict Text

abbrev pub put_csv : List Text → Dict Text → Dict Text
put_csv names m = if is_empty names then m else insert "return" (join_csv names) m

abbrev pub put_int : String → Option ℤ → Dict Text → Dict Text
put_int key none m = m
put_int key (some n) m = insert key (to_string n) m

abbrev pub bool_text : Bool → Text
bool_text true = utf8 "true"
bool_text false = utf8 "false"

abbrev pub put_bool : String → Option Bool → Dict Text → Dict Text
put_bool key none m = m
put_bool key (some b) m = insert key (bool_text b) m

abbrev pub value_or : Option Bool → Bool → Bool
value_or none d = d
value_or (some b) d = b

unfoldable pub recognize_form : RecognizeOptions → Dict Text → Dict Text
unfolding insert_all
recognize_form opts form =
    let named = put_csv opts.return_metadata (insert_all opts.extra_parameters form) in
    if is_empty opts.market then named else insert "market" opts.market named

unfoldable pub enterprise_form : EnterpriseOptions → Dict Text → Dict Text
unfolding insert_all
enterprise_form opts form =
    insert "accurate_offsets" (bool_text (value_or opts.accurate_offsets true)) (
      put_bool "use_timecode" opts.use_timecode (
        put_int "skip_first_seconds" opts.skip_first_seconds (
          put_int "limit" opts.limit (
            put_int "every" opts.every (
              put_int "skip" opts.skip
                (put_csv opts.return_metadata (insert_all opts.extra_parameters form)))))))

abbrev pub apply_recognize_opts : FormFields → RecognizeOptions → FormFields
apply_recognize_opts f opts = record f { form = recognize_form opts f.form }

abbrev pub apply_enterprise_opts : FormFields → EnterpriseOptions → FormFields
apply_enterprise_opts f opts = record f { form = enterprise_form opts f.form }
