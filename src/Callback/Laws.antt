-- ===== src/Callback/Laws.antt =====
-- Which event `parse_callback` of src/callback.cpp makes of a body.
use audd_cpp.Prelude.{
  ℕ, suc, ◌≡◌, refl, sym, ◌∙◌, Bool, true, false, Option, none, some, List, [], ◌∷◌, length,
  length-map, map, arith, if◌then◌else◌,
}
use audd_cpp.Prelude.Text.{Text}
use audd_cpp.Json.{Json, find, is_object}
use audd_cpp.Platform.{Platform}
use audd_cpp.Error.{Exception, Result, ok, err, ok-inj}
use audd_cpp.Recognition.{has_value}
use audd_cpp.Parse.Extras.{array_at}
use audd_cpp.Parse.Songs.{
  StreamCallbackSong, parse_stream_callback_match, parse_stream_callback_notification,
  parse_stream_callback_song, match_of,
}
use audd_cpp.Callback.{
  CallbackEvent, matched, notified, is_notification, as_event, event_of, not_an_object,
  parse_callback,
}

abbrev pub raw_of : {D : Type 0} → CallbackEvent D → Text
raw_of (matched m) = m.raw_response
raw_of (notified n) = n.raw_response

-- The songs of a match: the first one and the alternatives.
abbrev pub songs_of : {D : Type 0} → CallbackEvent D → ℕ
songs_of (matched m) = suc (length m.alternatives)
songs_of (notified n) = 0

module _ (P : Platform) where
  open P use {Double, parse}

  -- The results that the two members of a body announce.
  abbrev pub results_of : Option (Json Double) → Option (Json Double) → ℕ
  results_of (some notification) result = 0
  results_of none (some result) = length (array_at result "results")
  results_of none none = 0

  match_of_lem :
      (r : Json Double) (body : Text) (songs : List (StreamCallbackSong Double))
      (ev : CallbackEvent Double)
      → as_event matched (match_of P r body songs) ≡ ok ev
      → (is_notification ev ≡ false) × (raw_of ev ≡ body) × (songs_of ev ≡ length songs)
  match_of_lem r body [] ev h = ground (arith, h)
  match_of_lem r body (song ∷ songs) ev h = rw (← ok-inj _ ev h) (refl, refl, refl)

  event_of_lem :
      (j : Json Double) (body : Text) (n r : Option (Json Double)) (ev : CallbackEvent Double)
      → event_of P j body n r ≡ ok ev
      → (is_notification ev ≡ has_value n) × (raw_of ev ≡ body) × (songs_of ev ≡ results_of n r)
  unfolding event_of parse_stream_callback_match parse_stream_callback_notification
  event_of_lem j body (some n) r ev h = rw (← ok-inj _ ev h) (refl, refl, refl)
  event_of_lem j body none (some r) ev h =
      let songs = array_at r "results" in
      let (kind, raw, count) =
        match_of_lem r body (map (parse_stream_callback_song P) songs) ev h in
      (kind, raw, count ∙ length-map songs (parse_stream_callback_song P))
  event_of_lem j body none none ev h = ground (arith, h)

  guarded :
      {A : Type 0} (b : Bool) (x : Result A) (e : Exception) (a : A)
      → (if b then x else err e) ≡ ok a
      → x ≡ ok a
  guarded true x e a h = h
  guarded false x e a h = ground (arith, h)

  -- A body that parses to an event: it is a notification exactly if the object has a member `notification`,
  -- the event keeps the body, and a match has as many songs as the body has results.
  pub parse_callback_lem :
      (failure body : Text) (j : Json Double) (ev : CallbackEvent Double)
      → parse body ≡ some j
      → parse_callback P failure body ≡ ok ev
      → (is_notification ev ≡ has_value (find j "notification"))
        × (raw_of ev ≡ body)
        × (songs_of ev ≡ results_of (find j "notification") (find j "result"))
  unfolding parse_callback
  parse_callback_lem failure body j ev parsed h =
      let made = event_of P j body (find j "notification") (find j "result") in
      let opened : parse_callback P failure body
          ≡ (if is_object j then made else err (not_an_object P body)) =
        rw (parse_callback, parsed) refl in
      event_of_lem j body (find j "notification") (find j "result") ev
        (guarded (is_object j) made (not_an_object P body) ev (sym opened ∙ h))
