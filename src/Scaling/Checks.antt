-- ===== src/Scaling/Checks.antt =====
-- `check_size_params` against a declarative reading of a size request.
use senlin.Prelude.{◌≡◌, refl, ◌↔◌, ◌⊎◌, Bool, true, false, Option, none, some, arith}
use senlin.Prelude.Int.{ℤ, pos, ◌≤ℤ◌, ◌<ℤ◌}
use senlin.Scaling.Adjust.{Sizes, check_size_params}

-- The bound that a request is held to: a negative maximum is no bound.
abbrev pub Below : ℤ → ℤ → Type 0
Below v max_size = (max_size <ℤ pos 0) ⊎ (v ≤ℤ max_size)

-- The relation holds where the value is given.
abbrev pub IfGiven : Option ℤ → (ℤ → Type 0) → Type 0
IfGiven none P = Unit
IfGiven (some v) P = P v

-- The value, or the cluster's where it is not given and the flag asks for it.
abbrev pub Against : Option ℤ → Bool → ℤ → (ℤ → Type 0) → Type 0
Against (some v) ask default P = P v
Against none true default P = P default
Against none false default P = Unit

-- What a request that passes the checks against a cluster satisfies, and all that it has to.
pub record IsConsistent (max_nodes : ℤ) (c : Sizes) (desired min_size max_size : Option ℤ)
    (strict : Bool) : Type 0 where
  pub desired_fits : IfGiven desired (λ d. d ≤ℤ max_nodes)
  pub max_fits : IfGiven max_size (λ m. m ≤ℤ max_nodes)
  pub above_min : IfGiven desired (λ d. Against min_size strict c.min_size (λ m. m ≤ℤ d))
  pub below_max : IfGiven desired (λ d. Against max_size strict c.max_size (λ m. Below d m))
  pub range : IfGiven min_size (λ n. Against max_size true c.max_size (λ m. Below n m))
  pub above_cluster_min : IfGiven max_size (λ m. Against min_size true c.min_size (λ n. Below n m))
  pub min_desired : IfGiven min_size (λ n. Against desired strict c.desired_capacity (λ d. n ≤ℤ d))
  pub max_desired :
      IfGiven max_size (λ m. Against desired strict c.desired_capacity (λ d. Below d m))

module _ (max_nodes : ℤ) (c : Sizes) (strict : Bool) where
  check-IsConsistent :
      (desired min_size max_size : Option ℤ)
      → check_size_params max_nodes (some c) desired min_size max_size strict ≡ none
      → IsConsistent max_nodes c desired min_size max_size strict
  unfolding check_size_params
  check-IsConsistent none none none h = ground arith
  check-IsConsistent none none (some m) h = ground arith
  check-IsConsistent none (some n) none h = ground arith
  check-IsConsistent none (some n) (some m) h = ground arith
  check-IsConsistent (some d) none none h = ground arith
  check-IsConsistent (some d) none (some m) h = ground arith
  check-IsConsistent (some d) (some n) none h = ground arith
  check-IsConsistent (some d) (some n) (some m) h = ground arith

  IsConsistent-check :
      (desired min_size max_size : Option ℤ)
      → IsConsistent max_nodes c desired min_size max_size strict
      → check_size_params max_nodes (some c) desired min_size max_size strict ≡ none
  unfolding check_size_params
  IsConsistent-check none none none h = refl
  IsConsistent-check none none (some m) h = ground arith
  IsConsistent-check none (some n) none h = ground arith
  IsConsistent-check none (some n) (some m) h = ground arith
  IsConsistent-check (some d) none none h = ground arith
  IsConsistent-check (some d) none (some m) h = ground arith
  IsConsistent-check (some d) (some n) none h = ground arith
  IsConsistent-check (some d) (some n) (some m) h = ground arith

-- `check_size_params` returns no message for a cluster exactly when the request is consistent:
-- the sizes given are in order among themselves and with those of the cluster that they do not
-- replace, the desired capacity and the maximum are within the configured number of nodes, and the
-- tests that only a strict request makes hold if it is one.
pub check_size_params_iff :
    (max_nodes : ℤ) (c : Sizes) (desired min_size max_size : Option ℤ) (strict : Bool)
    → (check_size_params max_nodes (some c) desired min_size max_size strict ≡ none)
      ↔ IsConsistent max_nodes c desired min_size max_size strict
check_size_params_iff max_nodes c desired min_size max_size strict = (
  check-IsConsistent max_nodes c strict desired min_size max_size,
  IsConsistent-check max_nodes c strict desired min_size max_size,
)
