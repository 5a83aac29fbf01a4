-- ===== src/System/Charging.antt =====
-- What `submit_job` of coordinator/main.py charges, on every path through it.
use the_grid_x.Base.{
  ℕ, ℤ, pos, ◌-ℤ◌, ◌≤ℤ◌, leb_ℤ, ltb_ℤ, ◌≡◌, ◌∙◌, refl, ap, Bool, false, Option, none, some, Text,
  inl, inr, arith, int_laws, Bool-cases,
}
use the_grid_x.Database.{db_create_job}
use the_grid_x.Credits.{Rates, ensure_user, get_balance, covers, get_max_reserve}
use the_grid_x.Credits.Bounds.{IsSensible, get_max_reserve_bounds}
use the_grid_x.Credits.Totals.{total, sum_balances, total-deduct, total-credit}
use the_grid_x.State.{State}
use the_grid_x.Scheduler.{dispatch}
use the_grid_x.Api.{
  Order, SubmitBody, Submitted, Response, answer, http_error, validate, create_job, charge,
  submit_job,
}
use the_grid_x.System.Stable.{dispatch-Stable}
use the_grid_x.System.Funds.{funds-IsRouted, credits-create}
use the_grid_x.System.Handlers.{Result-cases}

-- An accepted job costs its reserve, and one that is refused nothing; `before` is the sum of all
-- balances before.
abbrev pub Charged : (reserved before : ℤ) → Response Submitted × State → Type 0
Charged reserved before (answer job, s) =
    (job.reserved ≡ reserved) × (total s.db ≡ before -ℤ reserved)
Charged reserved before (http_error e, s) = total s.db ≡ before

module _ (rates : Rates) (sensible : IsSensible rates) (is_printable : ℕ → Bool)
    (coordinator_owner : Text) (delivers : ℕ → Bool) (now : ℕ) (job_id : Text) where
  total-dispatch : (s : State) → total (dispatch coordinator_owner delivers now s).db ≡ total s.db
  total-dispatch s = ap sum_balances (
      dispatch-Stable (λ db. db.user_credits ≡ s.db.user_credits) (funds-IsRouted s.db.user_credits)
        coordinator_owner delivers now s refl)

  create_job-Charged :
      (order : Order) (reserved before : ℤ) (s : State)
      → pos 1 ≤ℤ reserved
      → total s.db ≡ before -ℤ reserved
      → Charged reserved before
          (create_job rates is_printable coordinator_owner delivers now job_id order reserved s)
  unfolding create_job
  create_job-Charged order reserved before s some_cost paid =
      elim (Result-cases (
        db_create_job is_printable now job_id order.user_id order.code order.language
          order.timeout_seconds reserved s.db)) [
            | inr (e, raised) ↦
                let due : leb_ℤ reserved (pos 0) ≡ false = ground arith in
                rw (raised, create_job, Charged)
                  (rw (total-credit rates now order.user_id reserved s.db)
                    (rw due (rw paid (omega int_laws))))
            | inl (db', written) ↦
                let same =
                  credits-create is_printable now job_id order.user_id order.code order.language
                    order.timeout_seconds reserved s.db db' written in
                rw (written, create_job, Charged)
                  (refl, total-dispatch _ ∙ (ap sum_balances same ∙ paid))
          ]

  charge-Charged :
      (order : Order) (reserved : ℤ) (s : State)
      → pos 1 ≤ℤ reserved
      → Charged reserved
          (total (ensure_user rates now order.user_id none s.db).1)
          (charge rates is_printable coordinator_owner delivers now job_id order reserved s)
  unfolding charge
  charge-Charged order reserved s some_cost =
      let ensured = (ensure_user rates now order.user_id none s.db).1 in
      let (answers, taken, kept) =
        total-deduct rates now order.user_id reserved ensured some_cost in
      elim (Bool-cases (ltb_ℤ (get_balance order.user_id ensured) reserved)) [
        | inl short ↦ rw (short, Charged) refl
        | inr enough ↦ rw enough (elim (Bool-cases (covers order.user_id reserved ensured)) [
          | inl fits ↦
              rw (answers ∙ fits)
                (create_job-Charged order reserved (total ensured) _ some_cost (rw fits at taken))
          | inr unfit ↦ rw (answers ∙ unfit, Charged) (ap total (kept unfit))
        ])
      ]

  -- Where the rates make sense (no negative cost per second and no negative initial balance, a
  -- positive MIN_COST that is at most MAX_COST, a positive default timeout, and a reward ratio between
  -- 0 and 1), an accepted job of a valid request takes exactly its reserve out of the sum of all balances;
  -- where the answer is an error (402 for a balance that is too low, 500 where the row cannot be
  -- written), the sum is as `ensure_user` left it.
  pub submit_job-Charged :
      (parse_int : Text → Option ℤ) (body : SubmitBody) (s : State) (order : Order)
      → validate is_printable parse_int body ≡ answer order
      → Charged
          (get_max_reserve rates (some order.timeout_seconds))
          (total (ensure_user rates now order.user_id none s.db).1)
          (submit_job rates is_printable coordinator_owner delivers now job_id parse_int body s)
  unfolding submit_job
  submit_job-Charged parse_int body s order valid =
      let (least, _) = get_max_reserve_bounds rates sensible (some order.timeout_seconds) in
      let one = sensible.min_pos in
      rw (valid, submit_job, Charged)
        (charge-Charged order (get_max_reserve rates (some order.timeout_seconds)) s
          (omega (int_laws, least, one)))
