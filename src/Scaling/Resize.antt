-- ===== src/Scaling/Resize.antt =====
-- `truncate_desired` and `parse_resize_params`: what a resize request that is accepted leads to.
use senlin.Prelude.{
  ◌≡◌, refl, subst, ◌⊎◌, inl, inr, Bool, true, false, Option, none, some, arith, if◌then◌else◌,
}
use senlin.Prelude.Int.{ℤ, pos, ◌≤ℤ◌, ◌<ℤ◌, ◌+ℤ◌, ◌-ℤ◌}
use senlin.Scaling.Adjust.{
  Sizes, truncate_desired, is_false, is_true, check_size_params, ResizeInputs, SizeChange, deletion,
  creation, SizeError, conclude, res_ok, current_or, requested, resized, size_change,
  parse_resize_params,
}
use senlin.Scaling.Checks.{Below, IsConsistent, check_size_params_iff}

-- The minimum and the maximum that a request puts in force.
abbrev pub new_or_old : Option ℤ → ℤ → ℤ
new_or_old none old = old
new_or_old (some v) old = v

-- With the minimum in force not above a positive maximum in force, truncation lands between them,
-- and keeps a capacity that is there already. A maximum that is not positive cuts nothing.
truncate_desired_bounds :
    (c : Sizes) (desired : ℤ) (min_size max_size : Option ℤ)
    → (new_or_old max_size c.max_size ≤ℤ pos 0)
      ⊎ (new_or_old min_size c.min_size ≤ℤ new_or_old max_size c.max_size)
    → (new_or_old min_size c.min_size ≤ℤ truncate_desired c desired min_size max_size)
      × ((new_or_old max_size c.max_size ≤ℤ pos 0)
          ⊎ (truncate_desired c desired min_size max_size ≤ℤ new_or_old max_size c.max_size))
      × ((truncate_desired c desired min_size max_size ≡ desired)
          ⊎ (desired <ℤ new_or_old min_size c.min_size)
          ⊎ (new_or_old max_size c.max_size <ℤ desired))
unfolding truncate_desired
truncate_desired_bounds c desired none none h = ground arith
truncate_desired_bounds c desired none (some m) h = ground arith
truncate_desired_bounds c desired (some n) none h = ground arith
truncate_desired_bounds c desired (some n) (some m) h = ground arith

-- The capacity that a change of `action.data` leads to.
abbrev pub apply_change : ℤ → SizeChange → ℤ
apply_change current (deletion count) = current -ℤ pos count
apply_change current (creation count) = current +ℤ pos count

pub apply_change_lem :
    (current desired : ℤ) → apply_change current (size_change current desired) ≡ desired
unfolding size_change ◌+ℤ◌ ◌-ℤ◌
apply_change_lem current desired = ground arith

conclude-eq-res_ok :
    (o : Option SizeError) {s t : SizeChange} → conclude o s ≡ res_ok t → (o ≡ none) × (s ≡ t)
unfolding conclude
conclude-eq-res_ok o e = ground arith

-- The sizes of a cluster are in order: its minimum is not above its maximum, where it has one, and
-- its maximum is not zero.
pub record IsSized (c : Sizes) : Type 0 where
  pub ordered : Below c.min_size c.max_size
  pub some_room : (c.max_size <ℤ pos 0) ⊎ (pos 0 <ℤ c.max_size)

-- A capacity that the sizes in force allow.
pub record IsAllowed (max_nodes : ℤ) (c : Sizes) (inputs : ResizeInputs) (d : ℤ) : Type 0 where
  pub within_nodes : d ≤ℤ max_nodes
  pub not_below : new_or_old inputs.min_size c.min_size ≤ℤ d
  pub not_above : Below d (new_or_old inputs.max_size c.max_size)

strict_as_requested :
    (c : Sizes) (inputs : ResizeInputs) (current : Option ℤ)
    → (inputs.strict ≡ some false) ⊎ (resized c inputs current ≡ requested c inputs current)
unfolding resized is_false
strict_as_requested c inputs current = by_strict inputs.strict refl
  where
    by_strict :
        (o : Option Bool)
        → inputs.strict ≡ o
        → (inputs.strict ≡ some false) ⊎ (resized c inputs current ≡ requested c inputs current)
    by_strict none s = inr (rw (resized, s) refl)
    by_strict (some true) s = inr (rw (resized, s) refl)
    by_strict (some false) s = inl s

pub is_true-some : {o : Option Bool} {b : Bool} → o ≡ some b → is_true o ≡ b
unfolding is_true
is_true-some e = rw e refl

resized-some :
    (c : Sizes) (inputs : ResizeInputs) (current : Option ℤ) (b : Bool)
    → inputs.strict ≡ some b
    → resized c inputs current ≡ (
        if b
        then requested c inputs current
        else truncate_desired c (requested c inputs current) inputs.min_size inputs.max_size)
unfolding resized is_false
resized-some c inputs current true e = rw (resized, e) refl
resized-some c inputs current false e = rw (resized, e) refl

module _ (max_nodes : ℤ) (c : Sizes) (sized : IsSized c) where
  strict-IsAllowed :
      (d : ℤ) (min_size max_size : Option ℤ)
      → IsConsistent max_nodes c (some d) min_size max_size true
      → (d ≤ℤ max_nodes)
        × (new_or_old min_size c.min_size ≤ℤ d)
        × Below d (new_or_old max_size c.max_size)
  strict-IsAllowed d none none h = ground arith
  strict-IsAllowed d none (some m) h = ground arith
  strict-IsAllowed d (some n) none h = ground arith
  strict-IsAllowed d (some n) (some m) h = ground arith

  lenient-IsAllowed :
      (d : ℤ) (min_size max_size : Option ℤ)
      → IsConsistent max_nodes c
          (some (truncate_desired c d min_size max_size))
          min_size
          max_size
          false
      → (truncate_desired c d min_size max_size ≤ℤ max_nodes)
        × (new_or_old min_size c.min_size ≤ℤ truncate_desired c d min_size max_size)
        × Below (truncate_desired c d min_size max_size) (new_or_old max_size c.max_size)
  lenient-IsAllowed d none none h = ground (arith, truncate_desired_bounds c d none none)
  lenient-IsAllowed d none (some m) h = ground (arith, truncate_desired_bounds c d none (some m))
  lenient-IsAllowed d (some n) none h = ground (arith, truncate_desired_bounds c d (some n) none)
  lenient-IsAllowed d (some n) (some m) h =
      ground (arith, truncate_desired_bounds c d (some n) (some m))

  settled-IsAllowed :
      (strict : Bool) (d : ℤ) (min_size max_size : Option ℤ) {r : ℤ}
      → r ≡ (if strict then d else truncate_desired c d min_size max_size)
      → IsConsistent max_nodes c (some r) min_size max_size strict
      → (r ≤ℤ max_nodes)
        × (new_or_old min_size c.min_size ≤ℤ r)
        × Below r (new_or_old max_size c.max_size)
  settled-IsAllowed true d min_size max_size e h =
      rw e (strict-IsAllowed d min_size max_size (rw e at h))
  settled-IsAllowed false d min_size max_size e h =
      rw e (lenient-IsAllowed d min_size max_size (rw e at h))

  resized-IsAllowed :
      (inputs : ResizeInputs) (current : Option ℤ) (b : Bool)
      → inputs.strict ≡ some b
      → IsConsistent max_nodes c (some (resized c inputs current)) inputs.min_size inputs.max_size b
      → IsAllowed max_nodes c inputs (resized c inputs current)
  resized-IsAllowed inputs current b given h =
      let (fits, above, below) =
        settled-IsAllowed b (requested c inputs current) inputs.min_size inputs.max_size
          {r = resized c inputs current} (resized-some c inputs current b given) h in
      record { within_nodes = fits; not_below = above; not_above = below }

  pub parse_resize_params-IsAllowed :
      (inputs : ResizeInputs) (current : Option ℤ) (change : SizeChange) (b : Bool)
      → inputs.strict ≡ some b
      → parse_resize_params max_nodes c inputs current ≡ res_ok change
      → IsAllowed max_nodes c inputs (apply_change (current_or current c.desired_capacity) change)
        × ((inputs.strict ≡ some false)
            ⊎ (apply_change (current_or current c.desired_capacity) change
                ≡ requested c inputs current))
  unfolding parse_resize_params
  parse_resize_params-IsAllowed inputs current change b given e =
      let (passed, same) =
        conclude-eq-res_ok
          (check_size_params max_nodes (some c) (some (resized c inputs current)) inputs.min_size
            inputs.max_size (is_true inputs.strict))
          e in
      let reached =
        apply_change_lem (current_or current c.desired_capacity) (resized c inputs current) in
      rw (← same, reached)
        (
          resized-IsAllowed inputs current b given (
              subst
                (IsConsistent max_nodes c (some (resized c inputs current)) inputs.min_size
                  inputs.max_size)
                (is_true-some given)
                ((check_size_params_iff max_nodes c _ inputs.min_size inputs.max_size
                    (is_true inputs.strict)).0
                  passed)),
          strict_as_requested c inputs current,
        )
