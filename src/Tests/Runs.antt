-- ===== src/Tests/Runs.antt =====
-- coordinator/scheduler.py, coordinator/websocket.py and coordinator/main.py
use the_grid_x.Base.{◌≡◌, refl, pos, true, none, some, [], text, text_eq, lookup, arith}
use the_grid_x.Utils.{
  str, validate_uuid, match_classes, uuid_pattern, is_hex, is_variant, validate_user_id, match_id,
  match_id_rest, is_id_char, sanitize_text,
}
use the_grid_x.Database.{init_db, banned, db_get_worker, falsy, db_get_worker_by_auth}
use the_grid_x.Credits.{default_rates, ensure_user, get_max_reserve}
use the_grid_x.Credits.Accounts.{IsSolvent}
use the_grid_x.Credits.Totals.{total}
use the_grid_x.State.{State, initial}
use the_grid_x.Scheduler.{dispatch}
use the_grid_x.Websocket.{Greeting, closed, authenticate, handle_hello, reject, reason_of, cleanup}
use the_grid_x.Api.{
  SubmitBody, Order, answer, no_limits, validate, checked_code, checked_language, checked_user_id,
  timeout_of, submit_job, restrict_worker, ensure_worker_exists_for_restriction,
}
use the_grid_x.System.Proper.{IsProperRegistry}
use the_grid_x.System.Dispatching.{NoJobLost, dispatch-NoJobLost}
use the_grid_x.System.Requeue.{IsWaiting, cleanup-IsWaiting}
use the_grid_x.System.Steps.{
  Setting, submits, Reachable, start, step, Reachable-IsSolvent, get_worker_by_auth-Reachable,
}
use the_grid_x.System.Sound.{IsSound}
use the_grid_x.System.Orderly
use the_grid_x.System.Orderly.{Orderly-IsSound}
use the_grid_x.System.Charging.{Charged, submit_job-Charged}
use the_grid_x.System.Access.{hello-restrict_worker}
use the_grid_x.Tests.Fixtures.{
  job_a, worker_b, on_worker, ready, working, all_deliver, all_printable, no_int,
  default_rates-IsSensible, ready-Pending,
}

valid_worker : validate_uuid worker_b ≡ true
unfolding validate_uuid match_classes uuid_pattern is_hex is_variant
valid_worker = refl

ready-IsProper : IsProperRegistry ready.workers_ws
ready-IsProper = ((valid_worker, (true, refl)), tt)

dispatch-NoJobLost_example :
    NoJobLost (dispatch (text "ops") all_deliver 7 ready)
    × IsProperRegistry (dispatch (text "ops") all_deliver 7 ready).workers_ws
dispatch-NoJobLost_example =
    dispatch-NoJobLost (text "ops") all_deliver 7 ready ready-Pending ready-IsProper

cleanup-IsWaiting_example :
    (lookup worker_b (cleanup (some worker_b) working).workers_ws ≡ none)
    × IsWaiting job_a (cleanup (some worker_b) working)
unfolding lookup text_eq
cleanup-IsWaiting_example = cleanup-IsWaiting worker_b job_a working on_worker refl refl refl

abbrev setting : Setting
setting = record {
  rates = default_rates;
  coordinator_owner = text "ops";
  is_printable = all_printable;
  parse_int = no_int;
  to_str = λ v. [];
}

abbrev body : SubmitBody
body = record {
  code = some (str (text "print(1)"));
  language = none;
  user_id = some (str (text "alice"));
  limits = no_limits;
}

abbrev submitted : State
submitted =
    (submit_job default_rates all_printable (text "ops") all_deliver 7 job_a no_int body initial).1

submitted-Reachable : Reachable setting submitted
submitted-Reachable = step initial submitted start (submits all_deliver 7 job_a body initial)

Reachable-IsSolvent_example : IsSolvent submitted.db
Reachable-IsSolvent_example =
    Reachable-IsSolvent setting submitted (omega arith) submitted-Reachable

get_worker_by_auth-Reachable_example :
    db_get_worker_by_auth (text "bob") (text "secret") submitted.db ≡ none
get_worker_by_auth-Reachable_example =
    get_worker_by_auth-Reachable setting submitted (text "bob") (text "secret") submitted-Reachable

abbrev order : Order
order = record {
  code = text "print(1)";
  language = text "python";
  user_id = text "alice";
  timeout_seconds = pos 60;
}

body_valid : validate all_printable no_int body ≡ answer order
unfolding validate checked_code checked_language checked_user_id timeout_of validate_user_id
    match_id match_id_rest is_id_char sanitize_text text_eq
body_valid = refl

submit_job-Charged_example :
    Charged
      (get_max_reserve default_rates (some (pos 60)))
      (total (ensure_user default_rates 7 (text "alice") none init_db).1)
      (submit_job default_rates all_printable (text "ops") all_deliver 7 job_a no_int body initial)
submit_job-Charged_example =
    submit_job-Charged default_rates default_rates-IsSensible all_printable (text "ops") all_deliver
      7 job_a no_int body initial order body_valid

abbrev greeting : Greeting
greeting = record {
  worker_id = worker_b;
  caps = falsy;
  owner_id = text "bob";
  auth_token = text "secret";
}

abbrev anonymous : Greeting
anonymous = record greeting { auth_token = [] }

ban_answered : (restrict_worker all_deliver 7 banned worker_b ready).0 ≡ answer worker_b
unfolding restrict_worker ensure_worker_exists_for_restriction db_get_worker validate_uuid
    match_classes uuid_pattern is_hex is_variant lookup text_eq
ban_answered = refl

let_in :
    authenticate anonymous (restrict_worker all_deliver 7 banned worker_b ready).1.db
    ≡ some worker_b
unfolding authenticate
let_in = refl

hello-restrict_worker_example :
    let s' : State = (restrict_worker all_deliver 7 banned worker_b ready).1 in
    (lookup worker_b s'.workers_ws ≡ none)
    × (handle_hello all_deliver 8 2 [] anonymous none s'
        ≡ (closed, some worker_b, reject all_deliver 8 2 [] (reason_of banned) s'))
hello-restrict_worker_example =
    hello-restrict_worker all_deliver all_deliver 7 8 2 [] worker_b banned anonymous none ready
      ban_answered let_in

Orderly-IsSound_example : IsSound submitted
Orderly-IsSound_example =
    Orderly-IsSound setting submitted
      (Orderly.step initial submitted Orderly.start (submits all_deliver 7 job_a body initial) tt)
