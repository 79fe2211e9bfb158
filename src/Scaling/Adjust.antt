-- ===== src/Scaling/Adjust.antt =====
-- The size arithmetic of senlin/common/scaleutils.py: `calculate_desired`, `truncate_desired`,
-- `check_size_params` and `parse_resize_params`.
-- Sizes are integers. A percentage is an integer too: for such a `number` the double
-- `(number * current) / 100.0` has the same floor and ceiling as the exact quotient, as long as the
-- product stays below 2 ^ 46; fractional percentages are not modelled. The messages of
-- `check_size_params` are the constructors of `SizeError`.
use senlin.Prelude.{ℕ, zero, suc, ◌+◌, ◌/◌, Bool, true, false, not, ◌&&◌, Option, none, some, ltb}
use senlin.Prelude.{if◌then◌else◌}
use senlin.Prelude.Int.{ℤ, pos, negsuc, ◌+ℤ◌, ◌-ℤ◌, ◌*ℤ◌, neg, abs, ltb_ℤ, leb_ℤ}

pub data AdjustmentType : Type 0 where
  exact_capacity change_in_capacity change_in_percentage : AdjustmentType

-- The fields of the cluster that the size checks read.
pub record Sizes : Type 0 where
  pub min_size : ℤ
  pub max_size : ℤ
  pub desired_capacity : ℤ

-- `math.floor(p / 100.0)`
unfoldable pub floor_percent : ℤ → ℤ
floor_percent (pos n) = pos (n / 100)
floor_percent (negsuc n) = negsuc (n / 100)

-- `math.ceil(p / 100.0)`
unfoldable pub ceil_percent : ℤ → ℤ
ceil_percent (pos n) = pos ((n + 99) / 100)
ceil_percent (negsuc n) = neg (pos (suc n / 100))

-- `rounded`, with `p` for `number * current`, a hundred times `delta`.
unfoldable pub round_delta : ℤ → ℤ
unfolding floor_percent ceil_percent neg
round_delta p =
    if ltb_ℤ (pos 0) p
    then (if ltb (abs p) 100 then ceil_percent p else floor_percent p)
    else if ltb (abs p) 100
    then floor_percent p
    else ceil_percent p

unfoldable pub adjust_percentage : ℤ → ℤ → Option ℤ → ℤ
adjust_percentage current rounded none = current +ℤ rounded
adjust_percentage current rounded (some min_step) =
    if ltb_ℤ (pos (abs rounded)) min_step
    then current +ℤ (if ltb_ℤ (pos 0) rounded then min_step else neg min_step)
    else current +ℤ rounded

unfoldable pub calculate_desired : ℤ → AdjustmentType → ℤ → Option ℤ → ℤ
calculate_desired current exact_capacity number min_step = number
calculate_desired current change_in_capacity number min_step = current +ℤ number
calculate_desired current change_in_percentage number min_step =
    adjust_percentage current (round_delta (number *ℤ current)) min_step

-- The two tests on `min_size` of `truncate_desired`.
unfoldable pub raise_to_min : Sizes → ℤ → Option ℤ → ℤ
raise_to_min cluster desired (some min_size) = if ltb_ℤ desired min_size then min_size else desired
raise_to_min cluster desired none =
    if ltb_ℤ desired cluster.min_size then cluster.min_size else desired

-- The two tests on `max_size` of `truncate_desired`.
unfoldable pub cut_to_max : Sizes → ℤ → Option ℤ → ℤ
cut_to_max cluster desired (some max_size) =
    if ltb_ℤ (pos 0) max_size && ltb_ℤ max_size desired then max_size else desired
cut_to_max cluster desired none =
    if ltb_ℤ cluster.max_size desired && ltb_ℤ (pos 0) cluster.max_size
    then cluster.max_size
    else desired

unfoldable pub truncate_desired : Sizes → ℤ → Option ℤ → Option ℤ → ℤ
unfolding raise_to_min cut_to_max
truncate_desired cluster desired min_size max_size =
    cut_to_max cluster (raise_to_min cluster desired min_size) max_size

pub data SizeError : Type 0 where
  desired_gt_max_nodes desired_lt_min desired_lt_cluster_min : SizeError
  desired_gt_max desired_gt_cluster_max : SizeError
  min_gt_max min_gt_cluster_max min_gt_desired : SizeError
  max_gt_max_nodes max_lt_cluster_min max_lt_desired : SizeError

-- `x is not None and test(x)`
abbrev pub is_some_and {ℓ} : {A : Type ℓ} → Option A → (A → Bool) → Bool
is_some_and none test = false
is_some_and (some a) test = test a

-- `x is None`
abbrev pub is_none {ℓ} : {A : Type ℓ} → Option A → Bool
is_none none = true
is_none (some a) = false

-- `max_nodes` is `cfg.CONF.max_nodes_per_cluster`.
module _ (max_nodes : ℤ) (cluster : Option Sizes) where
  -- the block under `if desired is not None`
  unfoldable pub check_desired : ℤ → Option ℤ → Option ℤ → Bool → Option SizeError
  check_desired desired min_size max_size strict =
      if ltb_ℤ max_nodes desired
      then some desired_gt_max_nodes
      else if is_some_and min_size (λ m. ltb_ℤ desired m)
      then some desired_lt_min
      else if is_none min_size && is_some_and cluster (λ c. ltb_ℤ desired c.min_size) && strict
      then some desired_lt_cluster_min
      else if is_some_and max_size (λ m. ltb_ℤ m desired && leb_ℤ (pos 0) m)
      then some desired_gt_max
      else if is_none max_size
          && is_some_and cluster (λ c. ltb_ℤ c.max_size desired && leb_ℤ (pos 0) c.max_size)
          && strict
      then some desired_gt_cluster_max
      else none

  -- the block under `if min_size is not None`
  unfoldable pub check_min : Option ℤ → ℤ → Option ℤ → Bool → Option SizeError
  check_min desired min_size max_size strict =
      if is_some_and max_size (λ m. leb_ℤ (pos 0) m && ltb_ℤ m min_size)
      then some min_gt_max
      else if is_none max_size
          && is_some_and cluster (λ c. leb_ℤ (pos 0) c.max_size && ltb_ℤ c.max_size min_size)
      then some min_gt_cluster_max
      else if is_none desired
          && is_some_and cluster (λ c. ltb_ℤ c.desired_capacity min_size)
          && strict
      then some min_gt_desired
      else none

  -- the block under `if max_size is not None`
  unfoldable pub check_max : Option ℤ → Option ℤ → ℤ → Bool → Option SizeError
  check_max desired min_size max_size strict =
      if ltb_ℤ max_nodes max_size
      then some max_gt_max_nodes
      else if is_none min_size
          && is_some_and cluster (λ c. leb_ℤ (pos 0) max_size && ltb_ℤ max_size c.min_size)
      then some max_lt_cluster_min
      else if is_none desired
          && is_some_and cluster (λ c. leb_ℤ (pos 0) max_size && ltb_ℤ max_size c.desired_capacity)
          && strict
      then some max_lt_desired
      else none

  -- a block that is skipped when its value is `None`
  abbrev pub skip_none : Option ℤ → (ℤ → Option SizeError) → Option SizeError
  skip_none none block = none
  skip_none (some v) block = block v

  -- the first block that returns a message ends the function
  abbrev pub or_else : Option SizeError → Option SizeError → Option SizeError
  or_else none rest = rest
  or_else (some e) rest = some e

  unfoldable pub check_size_params : Option ℤ → Option ℤ → Option ℤ → Bool → Option SizeError
  unfolding check_desired check_min check_max
  check_size_params desired min_size max_size strict =
      or_else (skip_none desired (λ d. check_desired d min_size max_size strict)) (
        or_else (skip_none min_size (λ m. check_min desired m max_size strict))
          (skip_none max_size (λ m. check_max desired min_size m strict)))

-- `action.inputs` of CLUSTER_RESIZE. The service sets `number` whenever it sets the type, so the
-- two are one optional pair.
pub record ResizeInputs : Type 0 where
  pub adjustment : Option (AdjustmentType × ℤ)
  pub min_size : Option ℤ
  pub max_size : Option ℤ
  pub min_step : Option ℤ
  -- `none` is a null
  pub strict : Option Bool

-- What `action.data` receives.
pub data SizeChange : Type 0 where
  deletion creation : ℕ → SizeChange

pub data ResizeResult : Type 0 where
  res_ok : SizeChange → ResizeResult
  res_error : SizeError → ResizeResult

-- `current or cluster.desired_capacity`: zero is falsy.
unfoldable pub current_or : Option ℤ → ℤ → ℤ
current_or none default = default
current_or (some (pos zero)) default = default
current_or (some n) default = n

unfoldable pub requested : Sizes → ResizeInputs → Option ℤ → ℤ
unfolding current_or calculate_desired
requested cluster inputs current =
    let now = current_or current cluster.desired_capacity in
    elim inputs.adjustment [
      | none ↦ now
      | some (adj_type, number) ↦ calculate_desired now adj_type number inputs.min_step
    ]

-- `strict is False`, and the truth of `strict`: a null is neither false nor true.
unfoldable pub is_false : Option Bool → Bool
is_false none = false
is_false (some b) = not b

unfoldable pub is_true : Option Bool → Bool
is_true none = false
is_true (some b) = b

-- `desired` when the checks are made
unfoldable pub resized : Sizes → ResizeInputs → Option ℤ → ℤ
unfolding requested truncate_desired is_false
resized cluster inputs current =
    let desired = requested cluster inputs current in
    if is_false inputs.strict
    then truncate_desired cluster desired inputs.min_size inputs.max_size
    else desired

-- `count = current - desired`, saved as a deletion if positive and as a creation if not
unfoldable pub size_change : ℤ → ℤ → SizeChange
size_change current desired =
    let count = current -ℤ desired in
    if ltb_ℤ (pos 0) count then deletion (abs count) else creation (abs count)

-- `if result: return action.RES_ERROR, result`
unfoldable pub conclude : Option SizeError → SizeChange → ResizeResult
conclude (some message) change = res_error message
conclude none change = res_ok change

unfoldable pub parse_resize_params : ℤ → Sizes → ResizeInputs → Option ℤ → ResizeResult
unfolding is_true
parse_resize_params max_nodes cluster inputs current =
    let desired = resized cluster inputs current in
    conclude
      (check_size_params max_nodes (some cluster) (some desired) inputs.min_size inputs.max_size
        (is_true inputs.strict))
      (size_change (current_or current cluster.desired_capacity) desired)
