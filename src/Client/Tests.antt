-- ===== src/Client/Tests.antt =====
-- Examples of a client on a network that fails twice before the upload and then answers.
use audd_cpp.Client.Decisive.{source_answer, Decides, recognitions-source_answer}
use audd_cpp.Source.{Source, source_url, prepare_source, not_a_source}
use audd_cpp.Prelude.{
  ℕ, List, map, All, ◌≤◌, ◌≡◌, refl, Bool, true, false, not, ◌&&◌, none, some, [], ◌∷◌, ◌++◌, ltb,
  if◌then◌else◌,
}
use audd_cpp.Prelude.Int.{pos, ◌==ℤ◌}
use audd_cpp.Prelude.Text.{Text, utf8}
use audd_cpp.Prelude.Dict.{Dict, lookup}
use audd_cpp.Error.{Result}
use audd_cpp.Http.{FormFields}
use audd_cpp.Http.Transport.{Transfer, CurlCode, probed}
use audd_cpp.Platform.Sample.{platform, curl}
use audd_cpp.Client.{AudD, World, ClientConfig, default_config}
use audd_cpp.Client.Options.{
  RecognizeOptions, EnterpriseOptions, enterprise_form, bool_text, value_or,
}
use audd_cpp.Client.Form.{last_of, given_or, int_text, flag_text, lookup-enterprise_form}
use audd_cpp.Client.Recognize.{
  recognize, recognize_enterprise, recognition_of, matches_of, api_base, enterprise_base,
}
use audd_cpp.Client.Accessors.{Accessor, no_sub_clients, slot, answers, accessed, answers-accessed}
use audd_cpp.Client.Billing.{is_connecting}
use audd_cpp.Client.Whole.{Announces, recognitions-Announces}
use text.Mathlib.Text.{◌==◌ as str_eq}

abbrev refused : Transfer
refused = record {
  easy_init = true;
  attached = true;
  code = CurlCode.couldnt_connect;
  uploaded = none;
  status = pos 0;
  received = [];
  headers = [];
}

abbrev answered : Transfer
answered = record refused { code = CurlCode.curl_ok; status = pos 200; received = utf8 "{}" }

abbrev config : ClientConfig
config = record default_config { listens = true }

abbrev client : AudD
client = record {
  config = config;
  api_token = utf8 "t";
  standard_http = record { api_token = utf8 "t"; timeout = pos 90000 };
  enterprise_http = record { api_token = utf8 "t"; timeout = pos 3600000 };
}

abbrev world : World
world = record {
  network = record {
    answers = λ i. if ltb i 2 then refused else answered;
    asked = 0;
    performed = [];
  };
  clock = λ i. i;
  ticks = 0;
  slept = [];
  events = [];
  deprecations = [];
}

abbrev options : RecognizeOptions
options = record {
  return_metadata = utf8 "spotify" ∷ [];
  market = utf8 "us";
  extra_parameters = ("market", utf8 "de") ∷ [];
}

abbrev source_form : Dict Text
source_form = ("url", utf8 "http://a") ∷ []

abbrev enterprise_options : EnterpriseOptions
enterprise_options = record {
  return_metadata = [];
  skip = some (pos 3);
  every = none;
  limit = none;
  skip_first_seconds = none;
  use_timecode = none;
  accurate_offsets = none;
  extra_parameters = ("skip", utf8 "9") ∷ [];
}

lookup-enterprise_form_example : lookup "skip" (enterprise_form enterprise_options source_form) ≡ (
    if str_eq "accurate_offsets" "skip"
    then some (bool_text (value_or none true))
    else given_or (str_eq "use_timecode" "skip") (flag_text none) (
        given_or (str_eq "skip_first_seconds" "skip") (int_text none) (
          given_or (str_eq "limit" "skip") (int_text none) (
            given_or (str_eq "every" "skip") (int_text none) (
              given_or
                (str_eq "skip" "skip")
                (int_text (some (pos 3)))
                (last_of "skip" (("skip", utf8 "9") ∷ []) (lookup "skip" source_form)))))))
lookup-enterprise_form_example = lookup-enterprise_form enterprise_options source_form "skip"

abbrev from_url : Source
from_url = source_url (utf8 "http://a")

abbrev nothing_opens : Text → Bool
nothing_opens path = false

abbrev fields : Result FormFields
fields = prepare_source nothing_opens not_a_source from_url

recognitions-source_answer_example :
    ((recognize platform curl nothing_opens client from_url options world).0
      ≡ source_answer platform curl (recognition_of platform curl) client world.network fields)
    × ((recognize_enterprise platform curl nothing_opens client from_url enterprise_options world).0
        ≡ source_answer platform curl (matches_of platform curl) client world.network fields)
    × Decides platform curl client fields world
        (recognize platform curl nothing_opens client from_url options world).1
    × Decides platform curl client fields world
        (recognize_enterprise platform curl nothing_opens client from_url enterprise_options
          world).1
recognitions-source_answer_example =
    recognitions-source_answer platform curl nothing_opens client from_url options
      enterprise_options world

-- Whether the probe counted bytes of a connection that was made.
abbrev seen : Transfer → Bool
seen t =
    t.easy_init && t.attached && not (is_connecting t.code) && not (probed t.uploaded ==ℤ pos 0)

recognitions-Announces_example :
    Announces platform curl
      (utf8 "recognize")
      (api_base ++ utf8 "/")
      fields
      world
      (recognize platform curl nothing_opens client from_url options world).1
    × Announces platform curl
        (utf8 "recognize_enterprise")
        (enterprise_base ++ utf8 "/")
        fields
        world
        (recognize_enterprise platform curl nothing_opens client from_url enterprise_options
          world).1
recognitions-Announces_example =
    recognitions-Announces platform curl nothing_opens client from_url options enterprise_options
      world refl

abbrev sub_client_calls : List Accessor
sub_client_calls =
    Accessor.advanced ∷ Accessor.streams ∷ Accessor.advanced ∷ Accessor.custom_catalog
    ∷ Accessor.streams ∷ []

sub_client_answers :
    map (λ r. r.1) (answers sub_client_calls no_sub_clients) ≡ 0 ∷ 1 ∷ 0 ∷ 2 ∷ 1 ∷ []
unfolding answers
sub_client_answers = refl

answers-accessed_example :
    let s = accessed sub_client_calls no_sub_clients in
    All (λ r. slot r.0 s ≡ some r.1) (answers sub_client_calls no_sub_clients)
    × ((a b : Accessor) (n : ℕ) → slot a s ≡ some n → slot b s ≡ some n → a ≡ b)
    × (s.made ≤ 3)
answers-accessed_example = answers-accessed sub_client_calls
