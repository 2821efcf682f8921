-- ===== src/Client/Recognize.antt =====
-- `AudD::recognize` and `AudD::recognize_enterprise`, src/client.cpp.

use audd_cpp.Prelude.{
  ℕ, ◌-◌, Bool, false, Option, none, some, List, [], ◌∷◌, ◌++◌, map, if◌then◌else◌,
}
use audd_cpp.Prelude.Int.{ℤ, pos}
use audd_cpp.Prelude.Text.{Text, utf8}
use audd_cpp.Json.{Json, find, is_null}
use audd_cpp.Platform.{Platform}
use audd_cpp.Error.{Result, ok, err}
use audd_cpp.Retry.{Exec, pre_upload_only, retry_on_connection_error}
use audd_cpp.Http.{HttpClient, HttpResponse, FormFields, post_form}
use audd_cpp.Http.Transport.{Curl}
use audd_cpp.Recognition.{RecognitionResult, EnterpriseMatch}
use audd_cpp.Parse.{parse_recognition, parse_enterprise_chunk, result_array_or_null}
use audd_cpp.Parse.Offset.{offset_to_seconds}
use audd_cpp.Source.{Source, prepare_source, not_a_source}
use audd_cpp.Client.{
  AudD, World, AudDEvent, Kind, emit_event, read_clock, now, sleep, on_network, decoded,
}
use audd_cpp.Client.Options.{
  RecognizeOptions, EnterpriseOptions, apply_recognize_opts, apply_enterprise_opts,
}

abbrev pub api_base : Text
api_base = utf8 "https://api.audd.io"

abbrev pub enterprise_base : Text
enterprise_base = utf8 "https://enterprise.audd.io"

module _ (P : Platform) (C : Curl) where
  open P use {Double, of_int, add, div}

  abbrev pub event_of : Kind → Text → Text → Text → ℤ → ℕ → AudDEvent
  event_of kind method url request_id http_status elapsed = record {
    kind = kind;
    method = method;
    url = url;
    request_id = request_id;
    http_status = http_status;
    elapsed = elapsed;
    error_code = pos 0;
  }

  -- The event behind the request: of kind exception where it threw, of kind response otherwise.
  unfoldable pub report :
      AudD
      → Text
      → Text
      → ℕ
      → Result (HttpResponse Double) × World
      → Result (HttpResponse Double) × World
  unfolding emit_event
  report c method url start (err e, w) = (
    err e,
    emit_event c (event_of Kind.exception method url [] (pos 0) (now w - start)) (read_clock w),
  )
  report c method url start (ok resp, w) = (
    ok resp,
    emit_event c
        (event_of Kind.response method url resp.request_id resp.http_status (now w - start))
        (read_clock w),
  )

  -- The part that both calls share, from the first event to the decoded body.
  unfoldable pub metered_call :
      AudD → HttpClient → Text → Text → FormFields → Exec World (Json Double)
  unfolding report decoded emit_event retry_on_connection_error post_form
  metered_call c http method url fields w =
      let begun = emit_event c (event_of Kind.request method url [] (pos 0) 0) (read_clock w) in
      decoded P C false (
        report c method url (now w) (
          retry_on_connection_error sleep (on_network (post_form P C http url fields))
            pre_upload_only c.config.max_attempts c.config.backoff_factor begun))

  abbrev pub then_read {ℓ} :
      {A : Type ℓ} → (Json Double → A) → Result (Json Double) × World → Result A × World
  then_read f (err e, w) = (err e, w)
  then_read f (ok body, w) = (ok (f body), w)

  unfoldable pub recognition_of : Json Double → Option (RecognitionResult Double)
  unfolding find
  recognition_of body = elim (find body "result") [
    | none ↦ none
    | some v ↦ if is_null v then none else some (parse_recognition P v)
  ]

  unfoldable pub recognize :
      (Text → Bool)
      → AudD
      → Source
      → RecognizeOptions
      → Exec World (Option (RecognitionResult Double))
  unfolding prepare_source metered_call recognition_of
  recognize opens c source opts w = elim (prepare_source opens not_a_source source) [
    | err e ↦ (err e, w)
    | ok fields ↦ then_read recognition_of (
        metered_call c c.standard_http (utf8 "recognize") (api_base ++ utf8 "/")
          (apply_recognize_opts fields opts) w)
  ]

  -- `base + offset / 1000.0`
  abbrev pub seconds_at : Double → ℤ → Double
  seconds_at base offset = add base (div (of_int offset) (of_int (pos 1000)))

  unfoldable pub anchor : Option Double → EnterpriseMatch Double → EnterpriseMatch Double
  anchor none song = song
  anchor (some base) song = record song {
    start_seconds = some (seconds_at base song.start_offset);
    end_seconds = some (seconds_at base song.end_offset);
  }

  unfoldable pub chunk_matches : Json Double → List (EnterpriseMatch Double)
  unfolding anchor parse_enterprise_chunk offset_to_seconds
  chunk_matches chunk =
      let parsed = parse_enterprise_chunk P chunk in
      map (anchor (offset_to_seconds P parsed.offset)) parsed.songs

  -- The loop over the chunks.
  unfoldable pub collect_matches : List (Json Double) → List (EnterpriseMatch Double)
  unfolding chunk_matches
  collect_matches [] = []
  collect_matches (chunk ∷ chunks) = chunk_matches chunk ++ collect_matches chunks

  unfoldable pub matches_of : Json Double → List (EnterpriseMatch Double)
  unfolding collect_matches result_array_or_null
  matches_of body = elim (result_array_or_null P body) [
    | none ↦ []
    | some chunks ↦ collect_matches chunks
  ]

  unfoldable pub recognize_enterprise :
      (Text → Bool) → AudD → Source → EnterpriseOptions → Exec World (List (EnterpriseMatch Double))
  unfolding prepare_source metered_call matches_of
  recognize_enterprise opens c source opts w = elim (prepare_source opens not_a_source source) [
    | err e ↦ (err e, w)
    | ok fields ↦ then_read matches_of (
        metered_call c c.enterprise_http (utf8 "recognize_enterprise") (enterprise_base ++ utf8 "/")
          (apply_enterprise_opts fields opts) w)
  ]
