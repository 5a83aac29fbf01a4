-- ===== src/Credits/Bounds.antt =====
-- What a job can cost, what is reserved for it, and what its worker earns.
use the_grid_x.Base.{
  ℕ, ◌*◌, ◌≤◌, ◌≡◌, refl, ℤ, pos, negsuc, ◌*ℤ◌, ◌≤ℤ◌, pos_mul, pos_part, neg_part, max_ℤ, min_ℤ,
  le_max_left, max_le, min_le_left, le_min, Option, none, some, arith,
}
use the_grid_x.Credits.Pricing.{
  Rates, round_half_even, round4, compute_cost, compute_reward, effective_timeout, get_max_reserve,
}

-- A configuration that makes sense: no negative rate, a share of at most the whole.
pub record IsSensible (rates : Rates) : Type 0 where
  pub rate_nonneg : pos 0 ≤ℤ rates.cost_per_second
  pub min_pos : pos 1 ≤ℤ rates.min_cost
  pub min_le_max : rates.min_cost ≤ℤ rates.max_cost
  pub ratio_nonneg : pos 0 ≤ℤ rates.reward_ratio
  pub ratio_le_one : rates.reward_ratio ≤ℤ pos 10000
  pub timeout_pos : pos 1 ≤ℤ rates.default_job_timeout
  pub initial_nonneg : pos 0 ≤ℤ rates.default_initial_balance

round_mono : (m n : ℕ) → m ≤ n → round_half_even m ≤ round_half_even n
unfolding round_half_even
round_mono m n h = ground arith

round_whole : (n : ℕ) → round_half_even (n * 10000) ≡ n
unfolding round_half_even
round_whole n = ground arith

round_le : (n k : ℕ) → n ≤ k * 10000 → round_half_even n ≤ k
round_le n k h = omega (arith, round_mono n (k * 10000) h, round_whole k)

eq_pos_part : (z : ℤ) → pos 0 ≤ℤ z → z ≡ pos (pos_part z)
eq_pos_part (pos n) h = refl
eq_pos_part (negsuc n) h = absurd (omega arith)

neg_part_zero : (z : ℤ) → pos 0 ≤ℤ z → neg_part z ≡ 0
neg_part_zero (pos n) h = refl
neg_part_zero (negsuc n) h = absurd (omega arith)

part_le : (z : ℤ) → pos 0 ≤ℤ z → z ≤ℤ pos 10000 → pos_part z ≤ 10000
part_le z h k = omega (arith, neg_part_zero z h)

-- A product of two numbers that are not negative, rounded.
round4-mul :
    (a b : ℤ)
    → pos 0 ≤ℤ a
    → pos 0 ≤ℤ b
    → round4 (a *ℤ b) ≡ pos (round_half_even (pos_part a * pos_part b))
unfolding round4
round4-mul (pos m) (pos n) h k = rw pos_mul
round4-mul (pos m) (negsuc n) h k = absurd (omega arith)
round4-mul (negsuc m) b h k = absurd (omega arith)

mul_mono : (m n k : ℕ) → m ≤ n → m * k ≤ n * k
mul_mono m n k h = grind arith

mul_mono_right : (k m n : ℕ) → m ≤ n → k * m ≤ k * n
mul_mono_right k m n h = grind arith

round4-mul-le : (a b c : ℤ) → pos 0 ≤ℤ a → pos 0 ≤ℤ c → a ≤ℤ b → round4 (a *ℤ c) ≤ℤ round4 (b *ℤ c)
round4-mul-le a b c ha hc h =
    let m = pos_part a * pos_part c in
    let n = pos_part b * pos_part c in
    let low : m ≤ n =
      mul_mono (pos_part a) (pos_part b) (pos_part c) (omega (arith, neg_part_zero a ha)) in
    rw (round4-mul a c ha hc)
      (rw (round4-mul b c (omega arith) hc) (omega (arith, round_mono m n low)))

module _ (rates : Rates) (sensible : IsSensible rates) where
  -- The cost of a job lies between MIN_COST and MAX_COST, whatever duration is reported, none and
  -- a negative one included.
  pub compute_cost_bounds :
      (duration : Option ℤ)
      → (rates.min_cost ≤ℤ compute_cost rates duration)
        × (compute_cost rates duration ≤ℤ rates.max_cost)
  unfolding compute_cost
  compute_cost_bounds none = (omega arith, sensible.min_le_max)
  compute_cost_bounds (some d) =
      let capped = min_ℤ rates.max_cost (round4 (d *ℤ rates.cost_per_second)) in
      let over = le_max_left rates.min_cost capped in
      let under =
        max_le rates.min_cost capped rates.max_cost sensible.min_le_max
          (min_le_left rates.max_cost (round4 (d *ℤ rates.cost_per_second))) in
      (ground (arith, over), ground (arith, sensible.min_le_max, under))

  effective_timeout-pos : (timeout : Option ℤ) → pos 1 ≤ℤ effective_timeout rates timeout
  unfolding effective_timeout
  effective_timeout-pos none = ground (arith, sensible.timeout_pos)
  effective_timeout-pos (some t) = ground (arith, sensible.timeout_pos)

  -- The reserve is positive and at most MAX_COST, and it is at least MIN_COST.
  pub get_max_reserve_bounds :
      (timeout : Option ℤ)
      → (rates.min_cost ≤ℤ get_max_reserve rates timeout)
        × (get_max_reserve rates timeout ≤ℤ rates.max_cost)
  unfolding get_max_reserve
  get_max_reserve_bounds timeout =
      let raw = round4 ((effective_timeout rates timeout *ℤ pos 10000) *ℤ rates.cost_per_second) in
      (
        le_min rates.max_cost (max_ℤ rates.min_cost raw) rates.min_cost sensible.min_le_max
            (le_max_left rates.min_cost raw),
        min_le_left rates.max_cost (max_ℤ rates.min_cost raw),
      )

  clamp_le :
      (a b : ℤ)
      → a ≤ℤ b
      → max_ℤ rates.min_cost (min_ℤ rates.max_cost a)
        ≤ℤ min_ℤ rates.max_cost (max_ℤ rates.min_cost b)
  unfolding max_ℤ min_ℤ
  clamp_le a b h = ground (arith, sensible.min_le_max)

  cost_of_nonneg :
      (n : ℕ)
      → compute_cost rates (some (pos n))
        ≡ max_ℤ rates.min_cost (min_ℤ rates.max_cost (round4 (pos n *ℤ rates.cost_per_second)))
  unfolding compute_cost
  cost_of_nonneg n = ground arith

  cost_of_negative : (n : ℕ) → compute_cost rates (some (negsuc n)) ≡ rates.min_cost
  unfolding compute_cost
  cost_of_negative n = ground arith

  -- Where the rates make sense (no negative cost per second and no negative initial balance, a
  -- positive MIN_COST that is at most MAX_COST, a positive default timeout, and a reward ratio between
  -- 0 and 1), a job that reports a duration within the timeout its reserve was computed from costs no
  -- more than that reserve. A timeout that is missing or not positive counts as the default one.
  pub compute_cost-le-get_max_reserve :
      (timeout : Option ℤ) (duration : ℤ)
      → duration ≤ℤ effective_timeout rates timeout *ℤ pos 10000
      → compute_cost rates (some duration) ≤ℤ get_max_reserve rates timeout
  unfolding get_max_reserve
  compute_cost-le-get_max_reserve timeout (negsuc n) h =
      rw (cost_of_negative n) (get_max_reserve_bounds timeout).0
  compute_cost-le-get_max_reserve timeout (pos n) h = rw (cost_of_nonneg n) (
      clamp_le (round4 (pos n *ℤ rates.cost_per_second))
        (round4 ((effective_timeout rates timeout *ℤ pos 10000) *ℤ rates.cost_per_second))
        (round4-mul-le (pos n) (effective_timeout rates timeout *ℤ pos 10000) rates.cost_per_second
          (omega arith) sensible.rate_nonneg h))

  -- The worker's owner earns a part of the cost: never less than nothing, never more than the cost.
  pub compute_reward_bounds :
      (actual_cost : ℤ)
      → pos 0 ≤ℤ actual_cost
      → (pos 0 ≤ℤ compute_reward rates actual_cost)
        × (compute_reward rates actual_cost ≤ℤ actual_cost)
  unfolding compute_reward
  compute_reward_bounds (pos n) h =
      let share = pos_part rates.reward_ratio in
      let e = round4-mul (pos n) rates.reward_ratio (omega arith) sensible.ratio_nonneg in
      let part : n * share ≤ n * 10000 =
        mul_mono_right n share 10000
          (part_le rates.reward_ratio sensible.ratio_nonneg sensible.ratio_le_one) in
      let le = round_le (n * share) n part in (ground (arith, e), ground (arith, e, le))
  compute_reward_bounds (negsuc n) h = absurd (omega arith)
