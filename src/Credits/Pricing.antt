-- ===== src/Credits/Pricing.antt =====
-- coordinator/credit_manager.py, "Time-based rates" and "Time-based cost / reward". A number of
-- credits, of seconds or of credits in a second counts ten-thousandths, so `round(x, 4)` of a
-- product is a division by 10,000.
use the_grid_x.Base.{
  ℕ, ◌+◌, ◌/◌, ◌%◌, ℤ, pos, negsuc, ◌-ℤ◌, ◌*ℤ◌, leb_ℤ, ltb_ℤ, max_ℤ, min_ℤ, ltb, ◌==◌, suc, Option,
  none, some, or_else, if◌then◌else◌,
}

-- The module's constants, which the environment can set. The ratio is of 10,000.
pub record Rates : Type 0 where
  pub cost_per_second : ℤ
  pub min_cost : ℤ
  pub max_cost : ℤ
  pub reward_ratio : ℤ
  pub default_job_timeout : ℤ
  pub default_initial_balance : ℤ

-- The values where the environment sets none: 0.1, 0.05, 25.0, 0.85, 60 s and 100.0.
abbrev pub default_rates : Rates
default_rates = record {
  cost_per_second = pos 1000;
  min_cost = pos 500;
  max_cost = pos 250000;
  reward_ratio = pos 8500;
  default_job_timeout = pos 60;
  default_initial_balance = pos 1000000;
}

-- The nearest whole number of ten-thousandths, and on a tie the even one.
unfoldable pub round_half_even : ℕ → ℕ
round_half_even n =
    let q = n / 10000 in
    let r = n % 10000 in
    if ltb r 5000 then q else if ltb 5000 r then q + 1 else if q % 2 == 0 then q else q + 1

-- `round(x, 4)` of a product of two scaled numbers.
unfoldable pub round4 : ℤ → ℤ
round4 (pos n) = pos (round_half_even n)
round4 (negsuc n) = pos 0 -ℤ pos (round_half_even (suc n))

unfoldable pub compute_cost : Rates → Option ℤ → ℤ
compute_cost rates none = rates.min_cost
compute_cost rates (some duration_seconds) =
    if ltb_ℤ duration_seconds (pos 0)
    then rates.min_cost
    else max_ℤ rates.min_cost
        (min_ℤ rates.max_cost (round4 (duration_seconds *ℤ rates.cost_per_second)))

unfoldable pub compute_reward : Rates → ℤ → ℤ
compute_reward rates actual_cost =
    if leb_ℤ actual_cost (pos 0) then pos 0 else round4 (actual_cost *ℤ rates.reward_ratio)

-- The timeout is a whole number of seconds.
unfoldable pub effective_timeout : Rates → Option ℤ → ℤ
effective_timeout rates timeout_seconds =
    let timeout = or_else timeout_seconds rates.default_job_timeout in
    if leb_ℤ timeout (pos 0) then rates.default_job_timeout else timeout

unfoldable pub get_max_reserve : Rates → Option ℤ → ℤ
get_max_reserve rates timeout_seconds =
    let timeout = effective_timeout rates timeout_seconds in
    min_ℤ rates.max_cost
      (max_ℤ rates.min_cost (round4 ((timeout *ℤ pos 10000) *ℤ rates.cost_per_second)))

unfoldable pub get_job_cost : Rates → ℤ
get_job_cost rates = get_max_reserve rates (some rates.default_job_timeout)

unfoldable pub get_worker_reward : Rates → ℤ
get_worker_reward rates = compute_reward rates (pos 10000)
