-- ===== src/Api/Submit.antt =====
-- coordinator/main.py: `submit_job`.
use the_grid_x.Base.{
  ℕ, ℤ, ltb_ℤ, Bool, Option, none, some, [], ◌∷◌, ◌++◌, Text, text, if◌then◌else◌,
}
use the_grid_x.Utils.{Value, str, validate_user_id, sanitize_text}
use the_grid_x.Database.{ok, raise, db_create_job}
use the_grid_x.Credits.{Rates, get_max_reserve, ensure_user, get_balance, deduct, credit}
use the_grid_x.State.{State}
use the_grid_x.Scheduler.{dispatch}
use the_grid_x.Api.Request.{
  bad_request, payment_required, internal_error, Response, answer, http_error, SubmitBody,
  checked_code, checked_language, timeout_of,
}

-- `user_id`, where `validate_user_id` accepts it; "demo" where it is missing.
unfoldable pub checked_user_id : Option Value → Option Text
checked_user_id none = some (text "demo")
checked_user_id (some (str s)) = if validate_user_id (str s) then some s else none
checked_user_id (some _) = none

pub record Submitted : Type 0 where
  pub job_id : Text
  pub reserved : ℤ

-- What a valid request asks for.
pub record Order : Type 0 where
  pub code : Text
  pub language : Text
  pub user_id : Text
  pub timeout_seconds : ℤ

module _ (is_printable : ℕ → Bool) (parse_int : Text → Option ℤ) where
  -- "INPUT VALIDATION", in the order of the code, and the sanitising behind it.
  unfoldable pub validate : SubmitBody → Response Order
  validate body = elim (checked_code body.code) [
    | none ↦ http_error bad_request
    | some code ↦ elim (checked_language body.language) [
      | none ↦ http_error bad_request
      | some language ↦ elim (checked_user_id body.user_id) [
        | none ↦ http_error bad_request
        | some user_id ↦ elim (timeout_of parse_int body.limits) [
          | none ↦ http_error internal_error
          | some timeout_seconds ↦ answer (record {
            code = sanitize_text is_printable code 1_000_000;
            language = language;
            user_id = sanitize_text is_printable user_id 64;
            timeout_seconds = timeout_seconds;
          })
        ]
      ]
    ]
  ]

-- `job_id` is the id that `generate_job_id` gives.
module _ (rates : Rates) (is_printable : ℕ → Bool) (coordinator_owner : Text) (delivers : ℕ → Bool)
    (now : ℕ) (job_id : Text) where
  -- "JOB CREATION": the reserve is refunded where the row cannot be written.
  unfoldable pub create_job : Order → (reserved : ℤ) → State → Response Submitted × State
  create_job order reserved s =
      elim (db_create_job is_printable now job_id order.user_id order.code order.language
        order.timeout_seconds reserved s.db) [
          | raise _ ↦ (
            http_error internal_error,
            record s { db = credit rates now order.user_id reserved s.db },
          )
          | ok db' ↦ (
            answer (record { job_id = job_id; reserved = reserved }),
            dispatch coordinator_owner delivers now
                (record s { db = db'; job_queue = s.job_queue ++ job_id ∷ [] }),
          )
        ]

  -- "CREDIT HANDLING"
  unfoldable pub charge : Order → (reserved : ℤ) → State → Response Submitted × State
  charge order reserved s =
      let ensured : State = record s { db = (ensure_user rates now order.user_id none s.db).1 } in
      let (deducted, db') = deduct now order.user_id reserved ensured.db in
      if ltb_ℤ (get_balance order.user_id ensured.db) reserved
      then (http_error payment_required, ensured)
      else if deducted
      then create_job order reserved (record ensured { db = db' })
      else (http_error payment_required, record ensured { db = db' })

  module _ (parse_int : Text → Option ℤ) where
    unfoldable pub submit_job : SubmitBody → State → Response Submitted × State
    submit_job body s = elim (validate is_printable parse_int body) [
      | http_error e ↦ (http_error e, s)
      | answer order ↦ charge order (get_max_reserve rates (some order.timeout_seconds)) s
    ]
