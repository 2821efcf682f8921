-- ===== src/Client/Form.antt =====
-- The form of a recognition: which of the options src/client.cpp lets win.
use audd_cpp.Prelude.{
  ◌≡◌, refl, ap, ◌∙◌, Bool, true, not, ◌&&◌, Option, none, some, List, [], ◌∷◌, String,
  if◌then◌else◌, Bool-cases, inl, inr,
}
use audd_cpp.Prelude.Int.{ℤ}
use audd_cpp.Prelude.Text.{Text, is_empty}
use audd_cpp.Prelude.Dict.{Dict, lookup, insert, insert_all, lookup-insert}
use audd_cpp.Prelude.Decimal.{to_string}
use audd_cpp.Url.{join_csv}
use audd_cpp.Client.Options.{
  RecognizeOptions, EnterpriseOptions, recognize_form, enterprise_form, put_csv, put_int, put_bool,
  bool_text, value_or,
}
use text.Mathlib.Text.{◌==◌ as str_eq}

-- The last value under a key, as a loop of assignments leaves it.
abbrev pub last_of : String → Dict Text → Option Text → Option Text
last_of key [] seen = seen
last_of key ((k, v) ∷ from) seen = last_of key from (if str_eq k key then some v else seen)

lookup-insert_all :
    (key : String) (from m : Dict Text)
    → lookup key (insert_all from m) ≡ last_of key from (lookup key m)
unfolding insert_all
lookup-insert_all key [] m = refl
lookup-insert_all key ((k, v) ∷ from) m =
    lookup-insert_all key from (insert k v m) ∙ ap (last_of key from) (lookup-insert k key v m)

lookup-put_csv :
    (key : String) (names : List Text) (m : Dict Text)
    → lookup key (put_csv names m) ≡ (
        if not (is_empty names) && str_eq "return" key then some (join_csv names) else lookup key m)
lookup-put_csv key [] m = refl
lookup-put_csv key (name ∷ names) m = lookup-insert "return" key (join_csv (name ∷ names)) m

-- Each parameter of a recognition: `market` and `return` where they are given as options, and otherwise the
-- last of the extra parameters under the key, or the field of the source. So a typed option wins over an extra
-- parameter, which wins over the source.
pub lookup-recognize_form :
    (opts : RecognizeOptions) (form : Dict Text) (key : String)
    → lookup key (recognize_form opts form) ≡ (
        if not (is_empty opts.market) && str_eq "market" key
        then some opts.market
        else if not (is_empty opts.return_metadata) && str_eq "return" key
        then some (join_csv opts.return_metadata)
        else last_of key opts.extra_parameters (lookup key form))
unfolding recognize_form
lookup-recognize_form opts form key =
    let named = put_csv opts.return_metadata (insert_all opts.extra_parameters form) in
    let below = lookup-put_csv key opts.return_metadata (insert_all opts.extra_parameters form) in
    let extra = lookup-insert_all key opts.extra_parameters form in
    elim (Bool-cases (is_empty opts.market)) [
      | inl e ↦ rw (e, below, extra) refl
      | inr e ↦ rw (e, lookup-insert "market" key opts.market named, below, extra) refl
    ]

abbrev pub given_or : Bool → Option Text → Option Text → Option Text
given_or asked none below = below
given_or asked (some v) below = if asked then some v else below

abbrev pub int_text : Option ℤ → Option Text
int_text none = none
int_text (some n) = some (to_string n)

abbrev pub flag_text : Option Bool → Option Text
flag_text none = none
flag_text (some b) = some (bool_text b)

lookup-put_int :
    (key k : String) (n : Option ℤ) (m : Dict Text)
    → lookup key (put_int k n m) ≡ given_or (str_eq k key) (int_text n) (lookup key m)
lookup-put_int key k none m = refl
lookup-put_int key k (some n) m = lookup-insert k key (to_string n) m

lookup-put_bool :
    (key k : String) (b : Option Bool) (m : Dict Text)
    → lookup key (put_bool k b m) ≡ given_or (str_eq k key) (flag_text b) (lookup key m)
lookup-put_bool key k none m = refl
lookup-put_bool key k (some b) m = lookup-insert k key (bool_text b) m

-- Each parameter of an enterprise recognition: `accurate_offsets` is always sent, as "true" unless the option
-- says otherwise; the other typed options are sent where they are given, and win over an extra parameter under
-- the same key, which wins over the field of the source.
pub lookup-enterprise_form :
    (opts : EnterpriseOptions) (form : Dict Text) (key : String)
    → lookup key (enterprise_form opts form) ≡ (
        if str_eq "accurate_offsets" key
        then some (bool_text (value_or opts.accurate_offsets true))
        else given_or (str_eq "use_timecode" key) (flag_text opts.use_timecode) (
            given_or (str_eq "skip_first_seconds" key) (int_text opts.skip_first_seconds) (
              given_or (str_eq "limit" key) (int_text opts.limit) (
                given_or (str_eq "every" key) (int_text opts.every) (
                  given_or (str_eq "skip" key) (int_text opts.skip) (
                    if not (is_empty opts.return_metadata) && str_eq "return" key
                    then some (join_csv opts.return_metadata)
                    else last_of key opts.extra_parameters (lookup key form)))))))
unfolding enterprise_form
lookup-enterprise_form opts form key =
    let m0 = insert_all opts.extra_parameters form in
    let m1 = put_csv opts.return_metadata m0 in
    let m2 = put_int "skip" opts.skip m1 in
    let m3 = put_int "every" opts.every m2 in
    let m4 = put_int "limit" opts.limit m3 in
    let m5 = put_int "skip_first_seconds" opts.skip_first_seconds m4 in
    let m6 = put_bool "use_timecode" opts.use_timecode m5 in
    let e0 =
      lookup-put_csv key opts.return_metadata m0
      ∙ ap
          (λ o.
            if not (is_empty opts.return_metadata) && str_eq "return" key
            then some (join_csv opts.return_metadata)
            else o)
          (lookup-insert_all key opts.extra_parameters form) in
    let e2 =
      lookup-put_int key "skip" opts.skip m1
      ∙ ap (given_or (str_eq "skip" key) (int_text opts.skip)) e0 in
    let e3 =
      lookup-put_int key "every" opts.every m2
      ∙ ap (given_or (str_eq "every" key) (int_text opts.every)) e2 in
    let e4 =
      lookup-put_int key "limit" opts.limit m3
      ∙ ap (given_or (str_eq "limit" key) (int_text opts.limit)) e3 in
    let e5 =
      lookup-put_int key "skip_first_seconds" opts.skip_first_seconds m4
      ∙ ap (given_or (str_eq "skip_first_seconds" key) (int_text opts.skip_first_seconds)) e4 in
    let e6 =
      lookup-put_bool key "use_timecode" opts.use_timecode m5
      ∙ ap (given_or (str_eq "use_timecode" key) (flag_text opts.use_timecode)) e5 in
    lookup-insert "accurate_offsets" key (bool_text (value_or opts.accurate_offsets true)) m6
    ∙ ap
        (λ o.
          if str_eq "accurate_offsets" key
          then some (bool_text (value_or opts.accurate_offsets true))
          else o)
        e6
