-- ===== src/Longpoll/Tests.antt =====
-- Examples of a subscription.
use audd_cpp.Longpoll.Handle.{
  LongpollPoll, move_handle, close_handle, next_match, next_notification, next_error, calls,
  then_ended, queued_matches, queued_notifications, queued_errors, calls-close_handle,
}
use audd_cpp.Longpoll.Rounds.{rounds}
use audd_cpp.Longpoll.Rounds.Event.{HasMatch, rounds-HasMatch}
use audd_cpp.Client.{AudD, default_config}
use audd_cpp.Http.Transport.{Transfer, CurlCode}
use audd_cpp.Prelude.{
  ◌+◌, ◌⊎◌, none, some, ltb, if◌then◌else◌, ℕ, List, ◌≡◌, refl, true, false, [], ◌∷◌, ◌++◌, length,
  All, replicate,
}
use audd_cpp.Prelude.Int.{ℤ, pos}
use audd_cpp.Prelude.Text.{utf8}
use audd_cpp.Json.{find}
use audd_cpp.Http.{response_of, Network}
use audd_cpp.Platform.Sample.{curl, platform, match_body, parse}
use audd_cpp.Parse.Extras.{extract_extras}
use audd_cpp.Coerce.{j_int64, j_str, j_int}
use audd_cpp.Parse.Songs.{StreamCallbackMatch, parse_stream_callback_song, StreamCallbackSong}
use audd_cpp.Callback.{parse_callback}
use audd_cpp.Json.{object, end}
use audd_cpp.Md5.Context.{Md5Ctx, initial_state}
use audd_cpp.Md5.Hex.{is_lower_hex}
use audd_cpp.Longpoll.Category.{derive_longpoll_category, derive_longpoll_category-is_lower_hex}
use audd_cpp.Longpoll.Queue
use audd_cpp.Longpoll.Queue.{
  Operation, pushes, pulls, closes, run_operations, accepted, run_operations-accepted,
}
use audd_cpp.Longpoll.Queue.Wakes.{
  Move, at_start, moves, pull_calls, operations, to_rest, under_way,
}
use audd_cpp.Longpoll.Queue.Wakes.Rest.{moves-awake}
use audd_cpp.Longpoll.{Poll, Phase}

abbrev script : List (Operation ℕ)
script = pushes 1 ∷ pulls ∷ pushes 2 ∷ closes ∷ pushes 3 ∷ pulls ∷ pulls ∷ []

run_operations-accepted_example :
    (run_operations script Queue.empty).0 ++ (run_operations script Queue.empty).1.q
    ≡ [] ++ accepted false script
run_operations-accepted_example = run_operations-accepted script Queue.empty

abbrev fresh_poll : Poll ℤ
fresh_poll = record {
  matches = Queue.empty;
  notifications = Queue.empty;
  errors = Queue.empty;
  closed = false;
  phase = Phase.requesting;
  cur_since = pos 0;
  backoff = 500;
}

abbrev empty_song : StreamCallbackSong ℤ
empty_song = parse_stream_callback_song platform (object end)

abbrev two_songs : StreamCallbackMatch ℤ
two_songs = record {
  radio_id = pos 0;
  timestamp = [];
  play_length = pos 0;
  song = empty_song;
  alternatives = empty_song ∷ [];
  extras = [];
  raw_response = match_body;
}

abbrev fresh : Md5Ctx
fresh = record { state = initial_state; bitcount = 77; buffer = replicate 64 170 }

derive_longpoll_category-is_lower_hex_example :
    (length (derive_longpoll_category fresh (utf8 "t") (pos 7)) ≡ 9)
    × All (λ c. is_lower_hex c ≡ true) (derive_longpoll_category fresh (utf8 "t") (pos 7))
derive_longpoll_category-is_lower_hex_example =
    derive_longpoll_category-is_lower_hex fresh (utf8 "t") (pos 7)

-- Two requests without a connection, and then a match.
abbrev refused : Transfer
refused = record {
  easy_init = true;
  attached = true;
  code = CurlCode.couldnt_connect;
  uploaded = none;
  status = pos 0;
  received = [];
  headers = [];
}

abbrev brings : Transfer
brings = record refused { code = CurlCode.curl_ok; status = pos 200; received = match_body }

abbrev flaky : Network
flaky = record { answers = λ i. if ltb i 7 then refused else brings; asked = 5; performed = [] }

abbrev client : AudD
client = record {
  config = default_config;
  api_token = utf8 "t";
  standard_http = record { api_token = utf8 "t"; timeout = pos 90000 };
  enterprise_http = record { api_token = utf8 "t"; timeout = pos 3600000 };
}

abbrev at_test : Poll ℤ
at_test = record fresh_poll { phase = Phase.testing }

rounds-HasMatch_example :
    HasMatch platform curl client
      (utf8 "c")
      (pos 50)
      []
      at_test
      two_songs
      (rounds platform curl client (utf8 "c") (pos 50) [] 3 (at_test, flaky))
      8
unfolding parse parse_callback j_int64 j_str j_int extract_extras find response_of
rounds-HasMatch_example =
    rounds-HasMatch platform curl client (utf8 "c") (pos 50) [] 2 at_test flaky brings two_songs
      refl refl refl refl refl refl refl refl refl refl

abbrev handle : LongpollPoll ℤ
handle = record {
  impl = some (record fresh_poll { matches = record { q = two_songs ∷ []; closed = false } });
}

calls-close_handle_example :
    let c = close_handle (move_handle handle).0 in
    (calls next_match 3 c ≡ then_ended 3 (queued_matches handle))
    × (calls next_notification 3 c ≡ then_ended 3 (queued_notifications handle))
    × (calls next_error 3 c ≡ then_ended 3 (queued_errors handle))
    × (calls next_match 3 (move_handle handle).1 ≡ then_ended 3 [])
    × (calls next_notification 3 (move_handle handle).1 ≡ then_ended 3 [])
    × (calls next_error 3 (move_handle handle).1 ≡ then_ended 3 [])
    × (close_handle (move_handle handle).1 ≡ (move_handle handle).1)
calls-close_handle_example = calls-close_handle 3 handle

-- Two threads sleep in `pull`; a value wakes one of them, the other stirs by itself and takes it, and behind
-- the close each has returned.
abbrev sleepers : List (Move ℕ)
sleepers =
    Move.pulls
    ∷ Move.pulls
    ∷ Move.pushes 7
    ∷ Move.stirs
    ∷ Move.notifies_one
    ∷ Move.resumes
    ∷ Move.closes
    ∷ Move.pushes 8
    ∷ Move.resumes
    ∷ []

sleepers_taken : (moves sleepers at_start).taken ≡ 7 ∷ []
unfolding moves
sleepers_taken = refl

moves-awake_example :
    let s = moves sleepers at_start in
    let t = moves (to_rest s) s in
    (under_way t ≡ 0)
    × (length t.taken + t.ends + t.asleep ≡ pull_calls sleepers)
    × ((t.asleep ≡ 0) ⊎ ((t.queue.q ≡ []) × (t.queue.closed ≡ false)))
    × (t.taken ++ t.queue.q ≡ accepted false (operations sleepers))
moves-awake_example = moves-awake sleepers
