-- ===== src/Policies/ScalingPolicy/Bounds.antt =====
-- What a scaling request that the policy accepts may do to the size of the cluster.
use senlin.Prelude.{◌≡◌, refl, ap, true, false, not, Option, none, some, if◌then◌else◌, arith}
use senlin.Prelude.Int.{
  ℤ, pos, ◌+ℤ◌, ◌-ℤ◌, ◌≤ℤ◌, ◌<ℤ◌, ltb_ℤ, min_ℤ, eq_of_parts, +ℤ_parts, -ℤ_parts,
}
use senlin.Scaling.Adjust.{Sizes, SizeError, check_desired, check_size_params}
use senlin.Scaling.Checks.{Below, IsConsistent, check_size_params_iff}
use senlin.Policies.ScalingPolicy.{
  Direction, scale_in, scale_out, ScalingPolicy, CheckResult, check_ok_deletion, check_ok_creation,
  invalid_count, size_error, requested_count, get_positive_int, size_limit, trimmed, check_count,
  with_count, pre_op,
}

-- The larger of two integers.
abbrev pub max_ℤ : ℤ → ℤ → ℤ
max_ℤ a b = if ltb_ℤ a b then b else a

-- The size that an accepted request leads to.
abbrev pub new_size : ℤ → CheckResult → Option ℤ
new_size current (check_ok_deletion count) = some (current -ℤ count)
new_size current (check_ok_creation count) = some (current +ℤ count)
new_size current (invalid_count v) = none
new_size current (size_error message) = none

-- The size that a count leads to.
abbrev pub target : Direction → ℤ → ℤ → ℤ
target scale_in current count = current -ℤ count
target scale_out current count = current +ℤ count

sub_min : (c n m : ℤ) → c -ℤ min_ℤ n (c -ℤ m) ≡ max_ℤ (c -ℤ n) m
sub_min c n m =
    eq_of_parts _ _ (ground (arith, -ℤ_parts c n, -ℤ_parts c m, -ℤ_parts c (min_ℤ n (c -ℤ m))))

add_min : (c n m : ℤ) → c +ℤ min_ℤ n (m -ℤ c) ≡ min_ℤ (c +ℤ n) m
add_min c n m =
    eq_of_parts _ _ (ground (arith, +ℤ_parts c n, -ℤ_parts m c, +ℤ_parts c (min_ℤ n (m -ℤ c))))

module _ (max_nodes : ℤ) (p : ScalingPolicy) (cluster : Sizes) (current : ℤ) where
  conclude-new_size :
      (d : Direction) (count : ℤ) (o : Option SizeError) {size : ℤ}
      → check_size_params max_nodes
          (some cluster)
          (some (target d current count))
          none
          none
          (not p.best_effort)
        ≡ o
      → new_size current (check_count max_nodes p d cluster current count) ≡ some size
      → (target d current count ≡ size) × (o ≡ none)
  unfolding check_count
  conclude-new_size scale_in count none e h = ground (arith, e, h)
  conclude-new_size scale_in count (some m) e h = absurd (ground (arith, e, h))
  conclude-new_size scale_out count none e h = ground (arith, e, h)
  conclude-new_size scale_out count (some m) e h = absurd (ground (arith, e, h))

  -- An accepted request has a positive count, and the size that its trimmed count leads to passed
  -- the checks.
  counted :
      (d : Direction) (value : ℤ) (o : Option ℤ) (size : ℤ)
      → get_positive_int value ≡ o
      → new_size current (with_count max_nodes p d cluster current value o) ≡ some size
      → (pos 0 <ℤ value)
        × (target d current (trimmed max_nodes p d cluster current value) ≡ size)
        × IsConsistent max_nodes cluster (some size) none none (not p.best_effort)
  unfolding with_count get_positive_int
  counted d value none size e h = absurd (ground (arith, e, h))
  counted d value (some count) size e h =
      let same : value ≡ count = ground (arith, e) in
      let positive : pos 0 <ℤ value = ground (arith, e) in
      let ends = conclude-new_size d (trimmed max_nodes p d cluster current count) _ refl h in
      let reached = ends.0 in
      let passed = ends.1 in
      (
        positive,
        rw (same, reached),
        (check_size_params_iff max_nodes cluster (some size) none none (not p.best_effort)).0
            (rw reached at passed),
      )

  -- A count that leads to a size within the configured number of nodes passes the checks of a
  -- best-effort policy.
  fits :
      p.best_effort ≡ true
      → (d : Direction) (count : ℤ) → target d current count ≤ℤ max_nodes
      → new_size current (check_count max_nodes p d cluster current count)
        ≡ some (target d current count)
  unfolding check_count check_size_params check_desired
  fits best scale_in count h = rw best (ground (arith, h, best))
  fits best scale_out count h = rw best (ground (arith, h, best))

  positive_count :
      (d : Direction) (input : Option ℤ)
      → pos 0 <ℤ requested_count p input current
      → pre_op max_nodes p d input cluster current
        ≡ check_count max_nodes p d cluster current
            (trimmed max_nodes p d cluster current (requested_count p input current))
  unfolding pre_op with_count get_positive_int
  positive_count d input h = ground (arith, h)

  fits_deletion :
      (count : ℤ)
      → p.best_effort ≡ true
      → current -ℤ count ≤ℤ max_nodes
      → check_count max_nodes p scale_in cluster current count ≡ check_ok_deletion count
  unfolding check_count check_size_params check_desired
  fits_deletion count best h = rw best (ground (arith, h, best))

  -- Below the minimum size, the room left is negative, and so smaller than a positive count.
  below_min :
      (count : ℤ)
      → p.best_effort ≡ true
      → pos 0 <ℤ count
      → current <ℤ cluster.min_size
      → trimmed max_nodes p scale_in cluster current count ≡ current -ℤ cluster.min_size
  unfolding trimmed
  below_min count best positive below =
      rw best (ground (arith, positive, below, -ℤ_parts current cluster.min_size))

  untrimmed :
      (d : Direction) (count : ℤ)
      → p.best_effort ≡ false
      → trimmed max_nodes p d cluster current count ≡ count
  unfolding trimmed
  untrimmed scale_in count strict = rw strict
  untrimmed scale_out count strict = rw strict

  -- The arithmetic of `min` and of the room left.
  scale_in_target :
      (count : ℤ)
      → p.best_effort ≡ true
      → target scale_in current (trimmed max_nodes p scale_in cluster current count)
        ≡ max_ℤ (current -ℤ count) cluster.min_size
  unfolding trimmed
  scale_in_target count best = rw best (sub_min current count cluster.min_size)

  scale_out_target :
      (count : ℤ)
      → p.best_effort ≡ true
      → target scale_out current (trimmed max_nodes p scale_out cluster current count)
        ≡ min_ℤ (current +ℤ count) (size_limit max_nodes cluster)
  unfolding trimmed
  scale_out_target count best = rw best (add_min current count (size_limit max_nodes cluster))

strict_bounds :
    (max_nodes : ℤ) (cluster : Sizes) (size : ℤ)
    → IsConsistent max_nodes cluster (some size) none none true
    → (cluster.min_size ≤ℤ size) × Below size cluster.max_size × (size ≤ℤ max_nodes)
strict_bounds max_nodes cluster size c = (c.above_min, c.below_max, c.desired_fits)

-- A policy that is not best-effort lets a request through only if its count is positive and it
-- leaves the cluster with a size between the minimum and maximum size of the cluster (a negative
-- maximum is no bound) that is within the configured number of nodes.
pub pre_op_strict :
    (max_nodes : ℤ) (p : ScalingPolicy) (cluster : Sizes) (current : ℤ) (d : Direction)
    (input : Option ℤ) (size : ℤ)
    → p.best_effort ≡ false
    → new_size current (pre_op max_nodes p d input cluster current) ≡ some size
    → (pos 0 <ℤ requested_count p input current)
      × (target d current (requested_count p input current) ≡ size)
      × (cluster.min_size ≤ℤ size)
      × Below size cluster.max_size
      × (size ≤ℤ max_nodes)
unfolding pre_op
pre_op_strict max_nodes p cluster current d input size strict h =
    let k = counted max_nodes p cluster current d (requested_count p input current) _ size refl h in
    let uncut = untrimmed max_nodes p cluster current d (requested_count p input current) strict in
    let consistent = strict_bounds max_nodes cluster size (rw strict at (k.2)) in
    (k.0, rw uncut at (k.1), consistent.0, consistent.1, consistent.2)

-- A best-effort policy never refuses a positive count that shrinks a cluster whose number of nodes
-- is between its minimum size and the configured number of nodes: the size that it leads to is the
-- one requested, or the minimum if that is larger.
pub pre_op_scale_in :
    (max_nodes : ℤ) (p : ScalingPolicy) (cluster : Sizes) (current : ℤ) (input : Option ℤ)
    → p.best_effort ≡ true
    → pos 0 <ℤ requested_count p input current
    → cluster.min_size ≤ℤ current
    → current ≤ℤ max_nodes
    → new_size current (pre_op max_nodes p scale_in input cluster current)
      ≡ some (max_ℤ (current -ℤ requested_count p input current) cluster.min_size)
pre_op_scale_in max_nodes p cluster current input best positive above within =
    let count = requested_count p input current in
    let reached = scale_in_target max_nodes p cluster current count best in
    rw
      (
        positive_count max_nodes p cluster current scale_in input positive,
        fits max_nodes p cluster current best scale_in
            (trimmed max_nodes p scale_in cluster current count)
            (rw reached (ground (arith, positive, above, within, -ℤ_parts current count))),
      )
      (ap some reached)

-- A best-effort policy never refuses a positive count that grows a cluster whose maximum size (the
-- configured number of nodes if it is -1) is at most the configured number: the size that it leads
-- to is the one requested, or the maximum if that is smaller.
pre_op_scale_out :
    (max_nodes : ℤ) (p : ScalingPolicy) (cluster : Sizes) (current : ℤ) (input : Option ℤ)
    → p.best_effort ≡ true
    → pos 0 <ℤ requested_count p input current
    → size_limit max_nodes cluster ≤ℤ max_nodes
    → new_size current (pre_op max_nodes p scale_out input cluster current)
      ≡ some (min_ℤ (current +ℤ requested_count p input current) (size_limit max_nodes cluster))
pre_op_scale_out max_nodes p cluster current input best positive within =
    let count = requested_count p input current in
    let reached = scale_out_target max_nodes p cluster current count best in
    rw
      (
        positive_count max_nodes p cluster current scale_out input positive,
        fits max_nodes p cluster current best scale_out
            (trimmed max_nodes p scale_out cluster current count)
            (rw reached (ground (arith, positive, within, +ℤ_parts current count))),
      )
      (ap some reached)

-- A best-effort policy accepts every positive count that shrinks a cluster of fewer nodes than its
-- minimum size, at most the configured number of nodes, and records the number of nodes to delete
-- as the number of nodes less the minimum, which is negative.
pub pre_op_below_min :
    (max_nodes : ℤ) (p : ScalingPolicy) (cluster : Sizes) (current : ℤ) (input : Option ℤ)
    → p.best_effort ≡ true
    → pos 0 <ℤ requested_count p input current
    → current <ℤ cluster.min_size
    → cluster.min_size ≤ℤ max_nodes
    → (pre_op max_nodes p scale_in input cluster current
        ≡ check_ok_deletion (current -ℤ cluster.min_size))
      × (current -ℤ cluster.min_size <ℤ pos 0)
pre_op_below_min max_nodes p cluster current input best positive below within =
    let m = cluster.min_size in
    let room = -ℤ_parts current m in
    let full = -ℤ_parts current (current -ℤ m) in
    (
      rw
          (
            positive_count max_nodes p cluster current scale_in input positive,
            below_min max_nodes p cluster current (requested_count p input current) best positive
                below,
          )
          (fits_deletion max_nodes p cluster current (current -ℤ m) best
            (ground (arith, within, room, full))),
      ground (arith, below, room),
    )
