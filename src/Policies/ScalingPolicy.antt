-- ===== src/Policies/ScalingPolicy.antt =====
-- senlin/policies/scaling_policy.py: how many nodes a scaling request adds or removes.
pub mod Bounds
use senlin.Prelude.{ℕ, suc, ◌/◌, Bool, true, false, not, ◌&&◌, Option, none, some, if◌then◌else◌}
use senlin.Prelude.Int.{ℤ, pos, negsuc, ◌+ℤ◌, ◌-ℤ◌, ◌*ℤ◌, ltb_ℤ, min_ℤ, neg}
use senlin.Scaling.Adjust.{
  AdjustmentType, exact_capacity, change_in_capacity, change_in_percentage, Sizes, SizeError,
  check_size_params,
}
use senlin.Policies.Batch.{is_minus_one}

-- CLUSTER_SCALE_IN or CLUSTER_SCALE_OUT: the two actions that the policy is checked for.
pub data Direction : Type 0 where
  scale_in scale_out : Direction

pub record ScalingPolicy : Type 0 where
  pub event : Direction
  pub adjustment_type : AdjustmentType
  pub adjustment_number : ℤ
  pub adjustment_min_step : ℤ
  pub best_effort : Bool
  pub cooldown : ℤ

pub data InvalidSpec : Type 0 where
  number_not_positive min_step_negative cooldown_negative : InvalidSpec

-- The part of `validate` that is the policy's own; `none` means that it passes.
unfoldable pub validate : ScalingPolicy → Option InvalidSpec
validate p =
    if not (ltb_ℤ (pos 0) p.adjustment_number)
    then some number_not_positive
    else if ltb_ℤ p.adjustment_min_step (pos 0)
    then some min_step_negative
    else if ltb_ℤ p.cooldown (pos 0)
    then some cooldown_negative
    else none

-- `int(p / 100.0)`
unfoldable pub int_percent : ℤ → ℤ
unfolding neg
int_percent (pos n) = pos (n / 100)
int_percent (negsuc n) = neg (pos (suc n / 100))

unfoldable pub exact_count : Direction → ℤ → ℤ → ℤ
exact_count scale_in number current = current -ℤ number
exact_count scale_out number current = number -ℤ current

unfoldable pub percent_count : ℤ → ℤ → ℤ → ℤ
unfolding int_percent
percent_count number min_step current =
    let count = int_percent (number *ℤ current) in if ltb_ℤ count min_step then min_step else count

unfoldable pub count_for : AdjustmentType → Direction → ℤ → ℤ → ℤ → ℤ
unfolding exact_count percent_count
count_for exact_capacity event number min_step current = exact_count event number current
count_for change_in_capacity event number min_step current = number
count_for change_in_percentage event number min_step current = percent_count number min_step current

-- `_calculate_adjustment_count`
unfoldable pub calculate_adjustment_count : ScalingPolicy → ℤ → ℤ
unfolding count_for
calculate_adjustment_count p current =
    count_for p.adjustment_type p.event p.adjustment_number p.adjustment_min_step current

-- `utils.get_positive_int`, of an integer
unfoldable pub get_positive_int : ℤ → Option ℤ
get_positive_int v = if ltb_ℤ (pos 0) v then some v else none

-- What `pre_op` writes into `action.data`.
pub data CheckResult : Type 0 where
  check_ok_deletion check_ok_creation : ℤ → CheckResult
  invalid_count : ℤ → CheckResult
  size_error : SizeError → CheckResult

-- `count_value`
unfoldable pub requested_count : ScalingPolicy → Option ℤ → ℤ → ℤ
requested_count p (some input) current = input
requested_count p none current = calculate_adjustment_count p current

unfoldable pub conclude : CheckResult → Option SizeError → CheckResult
conclude ok none = ok
conclude ok (some message) = size_error message

-- `cluster.max_size`, with the configured number of nodes for -1
unfoldable pub size_limit : ℤ → Sizes → ℤ
unfolding is_minus_one
size_limit max_nodes cluster = if is_minus_one cluster.max_size then max_nodes else cluster.max_size

-- The number of nodes once the best-effort policy has cut it.
unfoldable pub trimmed : ℤ → ScalingPolicy → Direction → Sizes → ℤ → ℤ → ℤ
unfolding size_limit
trimmed max_nodes p scale_in cluster current count =
    if p.best_effort then min_ℤ count (current -ℤ cluster.min_size) else count
trimmed max_nodes p scale_out cluster current count =
    if p.best_effort then min_ℤ count (size_limit max_nodes cluster -ℤ current) else count

-- The second half of `pre_op`, for a positive count.
unfoldable pub check_count : ℤ → ScalingPolicy → Direction → Sizes → ℤ → ℤ → CheckResult
unfolding conclude
check_count max_nodes p scale_in cluster current count = conclude (check_ok_deletion count) (
    check_size_params max_nodes (some cluster) (some (current -ℤ count)) none none
      (not p.best_effort))
check_count max_nodes p scale_out cluster current count = conclude (check_ok_creation count) (
    check_size_params max_nodes (some cluster) (some (current +ℤ count)) none none
      (not p.best_effort))

-- `pre_op` after `get_positive_int` has looked at the value of the count.
unfoldable pub with_count : ℤ → ScalingPolicy → Direction → Sizes → ℤ → ℤ → Option ℤ → CheckResult
unfolding check_count trimmed
with_count max_nodes p action cluster current value none = invalid_count value
with_count max_nodes p action cluster current value (some count) =
    check_count max_nodes p action cluster current
      (trimmed max_nodes p action cluster current count)

-- `pre_op`, for an action of the direction, with the `count` of its inputs if it has one, on a
-- cluster with `current` nodes.
unfoldable pub pre_op : ℤ → ScalingPolicy → Direction → Option ℤ → Sizes → ℤ → CheckResult
unfolding requested_count get_positive_int with_count
pre_op max_nodes p action input cluster current =
    let value = requested_count p input current in
    with_count max_nodes p action cluster current value (get_positive_int value)
