-- ===== src/Examples/Sizes.antt =====
-- Requests on the size of a small cluster.
use senlin.Prelude.{◌≡◌, refl, ◌↔◌, Bool, true, false, none, some}
use senlin.Prelude.Int.{pos, ◌-ℤ◌}
use senlin.Scaling.Adjust.{change_in_capacity, Sizes, check_size_params, ResizeInputs}
use senlin.Scaling.Checks.{IsConsistent, check_size_params_iff}
use senlin.Policies.ScalingPolicy.{ScalingPolicy, scale_in, pre_op, calculate_adjustment_count}
use senlin.Policies.ScalingPolicy.Bounds.{new_size}

abbrev c : Sizes
c = record { min_size = pos 1; max_size = pos 10; desired_capacity = pos 4 }

abbrev inputs : ResizeInputs
inputs = record {
  adjustment = some (change_in_capacity, pos 30);
  min_size = none;
  max_size = some (pos 12);
  min_step = none;
  strict = some false;
}

check_size_params_iff_example :
    (check_size_params (pos 1000) (some c) (some (pos 6)) none (some (pos 12)) true ≡ none)
    ↔ IsConsistent (pos 1000) c (some (pos 6)) none (some (pos 12)) true
check_size_params_iff_example =
    check_size_params_iff (pos 1000) c (some (pos 6)) none (some (pos 12)) true

abbrev policy : Bool → ScalingPolicy
policy best_effort = record {
  event = scale_in;
  adjustment_type = change_in_capacity;
  adjustment_number = pos 3;
  adjustment_min_step = pos 1;
  best_effort = best_effort;
  cooldown = pos 0;
}

shrunk : new_size (pos 5) (pre_op (pos 1000) (policy false) scale_in none c (pos 5)) ≡ some (pos 2)
unfolding pre_op check_size_params ◌-ℤ◌ calculate_adjustment_count
shrunk = refl
