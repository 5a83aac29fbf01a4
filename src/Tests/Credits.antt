-- ===== src/Tests/Credits.antt =====
-- coordinator/credit_manager.py
use the_grid_x.Base.{
  is_space, max_ℤ, min_ℤ, pos, ◌+ℤ◌, ◌*ℤ◌, ◌≤ℤ◌, ◌≡◌, refl, none, some, text, strip, lookup,
  text_eq, arith, int_laws,
}
use the_grid_x.Utils.{validate_uuid, match_classes, uuid_pattern, is_hex, is_variant}
use the_grid_x.Database.{db_get_job}
use the_grid_x.Credits.{
  default_rates, compute_cost, compute_reward, effective_timeout, get_max_reserve, settle_job,
  reserved_of, refund_of, round4, round_half_even,
}
use the_grid_x.Credits.Bounds.{compute_cost-le-get_max_reserve}
use the_grid_x.Credits.Totals.{total}
use the_grid_x.Credits.Settlement.{
  due_to, due_to_owner, total-settle_job, settle_job-le-reserve, settle_job_mints,
}
use the_grid_x.Credits.Replay.{db_get_job-settle_job, settle_job_twice}
use the_grid_x.Tests.Fixtures.{default_rates-IsSensible, one_job, waiting, job_a}

a_job : db_get_job job_a one_job ≡ some waiting
unfolding db_get_job validate_uuid lookup match_classes uuid_pattern is_hex is_variant text_eq
a_job = refl

-- 2.5 seconds cost 0.25 credits, and 0.5 seconds cost a half of a tenth.
cost_of_seconds : compute_cost default_rates (some (pos 25000)) ≡ pos 2500
unfolding compute_cost max_ℤ min_ℤ round4 ◌*ℤ◌ round_half_even
cost_of_seconds = refl

within_timeout : pos 25000 ≤ℤ effective_timeout default_rates (some (pos 60)) *ℤ pos 10000
unfolding effective_timeout ◌*ℤ◌
within_timeout = omega arith

compute_cost-le-get_max_reserve_example :
    compute_cost default_rates (some (pos 25000)) ≤ℤ get_max_reserve default_rates (some (pos 60))
compute_cost-le-get_max_reserve_example =
    compute_cost-le-get_max_reserve default_rates default_rates-IsSensible (some (pos 60))
      (pos 25000) within_timeout

total-settle_job_example :
    total (settle_job default_rates 7 job_a (some (text "bob")) (some (pos 25000)) one_job)
    ≡ (total one_job
        +ℤ due_to (strip waiting.user_id) (refund_of default_rates waiting (some (pos 25000))))
      +ℤ due_to_owner
          (some (text "bob"))
          (compute_reward default_rates (compute_cost default_rates (some (pos 25000))))
total-settle_job_example =
    total-settle_job default_rates 7 job_a (some (text "bob")) (some (pos 25000)) one_job waiting
      default_rates-IsSensible a_job

covered : compute_cost default_rates (some (pos 25000)) ≤ℤ reserved_of default_rates waiting
unfolding compute_cost reserved_of max_ℤ min_ℤ round4 ◌*ℤ◌ round_half_even
covered = omega arith

settle_job-le-reserve_example :
    total (settle_job default_rates 7 job_a (some (text "bob")) (some (pos 25000)) one_job)
    ≤ℤ total one_job +ℤ reserved_of default_rates waiting
settle_job-le-reserve_example =
    settle_job-le-reserve default_rates 7 job_a (some (text "bob")) (some (pos 25000)) one_job
      waiting default_rates-IsSensible a_job covered

-- Two minutes, where the reserve is for one.
too_much :
    compute_reward default_rates (compute_cost default_rates (some (pos 1200000)))
      ≤ℤ reserved_of default_rates waiting
    → ⊥
unfolding compute_reward compute_cost reserved_of max_ℤ min_ℤ round4 ◌*ℤ◌ round_half_even
too_much h = omega (int_laws, h)

settle_job_mints_example :
    total (settle_job default_rates 7 job_a (some (text "bob")) (some (pos 1200000)) one_job)
      ≤ℤ total one_job +ℤ reserved_of default_rates waiting
    → ⊥
unfolding strip is_space
settle_job_mints_example =
    settle_job_mints default_rates 7 job_a (text "bob") (some (pos 1200000)) one_job waiting
      default_rates-IsSensible a_job refl too_much

db_get_job-settle_job_example :
    db_get_job job_a (settle_job default_rates 7 job_a none (some (pos 25000)) one_job)
    ≡ some (record waiting {
      duration_seconds = some (pos 25000);
      cost = compute_cost default_rates (some (pos 25000));
    })
db_get_job-settle_job_example =
    db_get_job-settle_job default_rates 7 job_a none (some (pos 25000)) one_job waiting a_job

settle_job_twice_example :
    let first = settle_job default_rates 7 job_a (some (text "bob")) (some (pos 25000)) one_job in
    total (settle_job default_rates 7 job_a (some (text "bob")) (some (pos 25000)) first)
    ≡ total first
      +ℤ due_to_owner
          (some (text "bob"))
          (compute_reward default_rates (compute_cost default_rates (some (pos 25000))))
settle_job_twice_example =
    settle_job_twice default_rates 7 job_a (some (text "bob")) (some (pos 25000)) one_job waiting
      default_rates-IsSensible a_job
