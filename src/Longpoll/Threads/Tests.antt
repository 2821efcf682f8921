-- ===== src/Longpoll/Threads/Tests.antt =====
-- Examples of the threads of a subscription.
use audd_cpp.Longpoll.Threads.Report.{schedule-reported}
use audd_cpp.Longpoll.{terminal_error, classify_longpoll_response}
use audd_cpp.Prelude.{List, ◌≡◌, ◌≤◌, refl, true, [], ◌∷◌, ◌++◌, length, arith}
use audd_cpp.Prelude.Int.{ℤ, pos}
use audd_cpp.Json.{null}
use audd_cpp.Http.{HttpResponse}
use audd_cpp.Error.{ok, err, audd, connection_error}
use audd_cpp.Platform.Sample.{platform, match_body, parse}
use audd_cpp.Parse.Extras.{extract_extras}
use audd_cpp.Coerce.{j_int64, j_str, j_int}
use audd_cpp.Callback.{parse_callback}
use audd_cpp.Longpoll.Threads.State.{Stage, Worker, Main, System, begin}
use audd_cpp.Longpoll.Threads.Consistent.{IsConsistent}
use audd_cpp.Longpoll.Threads.Consistent.Schedule.{schedule-IsConsistent}
use audd_cpp.Longpoll.Threads.Run.{schedule-delivered}
use audd_cpp.Longpoll.Threads.Halt.{schedule-returned}
use audd_cpp.Longpoll.Threads.Join.{schedule-done}
use audd_cpp.Longpoll.Threads.{
  Action, works, closes, match_pumps, notification_pumps, main_runs, schedule,
}

abbrev answer : HttpResponse ℤ
answer = record { http_status = pos 200; raw_body = match_body; json_body = null; request_id = [] }

abbrev receives : Action platform
receives = works [] (ok answer)

abbrev blips : Action platform
blips = works [] (err (audd (connection_error [] true)))

-- A round of the worker that brings a match.
abbrev round : List (Action platform)
round = receives ∷ receives ∷ receives ∷ receives ∷ receives ∷ []

abbrev closing : List (Action platform)
closing = closes 0 ∷ closes 0 ∷ closes 0 ∷ closes 0 ∷ []

abbrev script : List (Action platform)
script =
    round
    ++ closing
    ++ match_pumps ∷ match_pumps ∷ match_pumps ∷ notification_pumps ∷ main_runs ∷ main_runs ∷ []

one_match : length (schedule platform script (begin (pos 0))).delivered_matches ≡ 1
unfolding parse parse_callback j_int64 j_str j_int extract_extras schedule begin
one_match = refl

schedule-IsConsistent_example : IsConsistent (schedule platform script (begin (pos 0)))
schedule-IsConsistent_example = schedule-IsConsistent platform script (pos 0)

schedule-delivered_example :
    let s = schedule platform script (begin (pos 0)) in
    (s.delivered_matches ≡ s.accepted_matches)
    × (s.delivered_notifications ≡ s.accepted_notifications)
    × (s.reported ≡ s.accepted_errors)
    × (length s.reported ≤ 1)
    × (s.closed ≡ true)
unfolding parse parse_callback j_int64 j_str j_int extract_extras schedule begin
schedule-delivered_example = schedule-delivered platform script (pos 0) refl

-- The poll is marked as closed while a request is under way.
abbrev marked_poll : System ℤ
marked_poll = schedule platform (receives ∷ closes 0 ∷ []) (begin (pos 0))

schedule-returned_example :
    let s = schedule platform (blips ∷ round) marked_poll in
    (s.worker ≡ Worker.returned) × (s.closed ≡ true)
unfolding schedule begin
schedule-returned_example =
    schedule-returned platform (blips ∷ round) marked_poll refl (omega arith)

-- Closed, with a match that nobody has pulled yet.
abbrev closed_poll : System ℤ
closed_poll = schedule platform (round ++ closing) (begin (pos 0))

abbrev pumping : List (Action platform)
pumping =
    match_pumps ∷ match_pumps ∷ match_pumps ∷ match_pumps ∷ notification_pumps ∷ notification_pumps
    ∷ main_runs ∷ main_runs ∷ main_runs ∷ main_runs ∷ main_runs ∷ main_runs ∷ main_runs ∷ []

schedule-done_example : (schedule platform (pumping ++ main_runs ∷ []) closed_poll).main ≡ Main.done
unfolding parse parse_callback j_int64 j_str j_int extract_extras schedule begin
schedule-done_example =
    schedule-done platform pumping closed_poll refl refl refl (omega arith) (omega arith)
      (omega arith)

-- The server ends the subscription.
abbrev bad_gateway : HttpResponse ℤ
bad_gateway = record answer { http_status = pos 502 }

abbrev refuses : Action platform
refuses = works [] (ok bad_gateway)

abbrev until_failing : List (Action platform)
until_failing = refuses ∷ refuses ∷ refuses ∷ refuses ∷ []

abbrev run_ends : List (Action platform)
run_ends =
    main_runs ∷ main_runs ∷ main_runs ∷ main_runs ∷ main_runs ∷ main_runs ∷ match_pumps
    ∷ notification_pumps ∷ main_runs ∷ []

schedule-reported_example :
    (schedule platform (until_failing ++ refuses ∷ run_ends) (begin (pos 0))).reported
    ≡ terminal_error platform bad_gateway ∷ []
unfolding schedule begin classify_longpoll_response
schedule-reported_example =
    schedule-reported platform until_failing run_ends (pos 0) [] (ok bad_gateway)
      (terminal_error platform bad_gateway) refl refl refl

-- A call of `close` that has returned while the worker is still in its request.
abbrev unjoined : List (Action platform)
unjoined = receives ∷ closing

unjoined_worker :
    ((schedule platform unjoined (begin (pos 0))).closer 0 ≡ Stage.finished)
    × ((schedule platform unjoined (begin (pos 0))).worker ≡ Worker.requesting)
unfolding schedule begin
unjoined_worker = (refl, refl)
