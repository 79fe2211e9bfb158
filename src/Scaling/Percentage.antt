-- ===== src/Scaling/Percentage.antt =====
-- How `calculate_desired` rounds a percentage and applies the minimum step.
use senlin.Prelude.{◌+◌, ◌*◌, ◌≤◌, ◌<◌, ◌≡◌, some, arith}
use senlin.Prelude.Int.{ℤ, pos, negsuc, ◌+ℤ◌, ◌-ℤ◌, ◌*ℤ◌, ◌≤ℤ◌, ◌<ℤ◌, neg, abs}
use senlin.Scaling.Adjust.{change_in_percentage, round_delta, adjust_percentage, calculate_desired}

-- The rounded step is the exact one rounded towards zero, but is one node where the exact step is
-- not zero and smaller than one node; its sign is that of the exact step.
pub round_delta_bounds :
    (p : ℤ)
    → (100 ≤ abs p
        → (abs (round_delta p) * 100 ≤ abs p) × (abs p < abs (round_delta p) * 100 + 100))
      × (0 < abs p → abs p < 100 → abs (round_delta p) ≡ 1)
      × (pos 0 <ℤ p → pos 0 <ℤ round_delta p)
      × (p <ℤ pos 0 → round_delta p <ℤ pos 0)
      × (p ≡ pos 0 → round_delta p ≡ pos 0)
unfolding round_delta
round_delta_bounds (pos n) = ground arith
round_delta_bounds (negsuc n) = ground arith

module _ (current number : ℤ) (min_step : ℤ) where
  -- A percentage whose exact step is positive grows the cluster by at least one node and by at
  -- least the minimum step.
  percentage_grows :
      pos 0 <ℤ number *ℤ current
      → (current <ℤ calculate_desired current change_in_percentage number (some min_step))
        × (current +ℤ min_step
            ≤ℤ calculate_desired current change_in_percentage number (some min_step))
  unfolding calculate_desired adjust_percentage ◌+ℤ◌ neg
  percentage_grows h = let (_, _, up, _, _) = round_delta_bounds (number *ℤ current) in ground arith

  -- A percentage whose exact step is negative shrinks the cluster by at least one node and by at
  -- least the minimum step.
  percentage_shrinks :
      number *ℤ current <ℤ pos 0
      → (calculate_desired current change_in_percentage number (some min_step) <ℤ current)
        × (calculate_desired current change_in_percentage number (some min_step) +ℤ min_step
            ≤ℤ current)
  unfolding calculate_desired adjust_percentage ◌+ℤ◌ neg
  percentage_shrinks h =
      let (_, _, _, down, _) = round_delta_bounds (number *ℤ current) in ground arith

  -- Where the exact step is zero and the minimum step is positive, the desired capacity is the
  -- current one less the minimum step, also where the percentage is one of growth.
  pub percentage_of_zero :
      number *ℤ current ≡ pos 0
      → pos 0 <ℤ min_step
      → calculate_desired current change_in_percentage number (some min_step) ≡ current -ℤ min_step
  unfolding calculate_desired adjust_percentage ◌+ℤ◌ ◌-ℤ◌ neg round_delta
  percentage_of_zero z h = ground arith
