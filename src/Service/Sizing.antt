-- ===== src/Service/Sizing.antt =====
-- `cluster_resize`, `cluster_scale_out` and `cluster_scale_in` of senlin/engine/service.py. A
-- number that is not an integer is not modelled. `none` is an exception that the code does not
-- expect, such as the comparison of `None` with a number.
pub mod Accepted
pub mod Scaled
use senlin.Prelude.{
  ℕ, suc, Bool, true, false, ◌&&◌, Option, none, some, List, [], ◌∷◌, length, ◌==◌, if◌then◌else◌,
  ◌>>=◌,
}
use senlin.Prelude.Int.{ℤ, pos, ◌+ℤ◌, ◌-ℤ◌, leb_ℤ}
use senlin.Db.{ActionName, cluster_resize, cluster_scale_out, cluster_scale_in}
use senlin.Scaling.Adjust.{
  AdjustmentType, exact_capacity, change_in_capacity, change_in_percentage, SizeError, ResizeInputs,
  calculate_desired, check_size_params, is_true,
}
use senlin.Service.Find.{filter_by}
use senlin.Service.{
  ClusterRow, NodeRow, Store, Caller, Rejection, missing_number, missing_adjustment_type,
  number_not_positive, zero_count, Inputs, no_inputs, count, sizes, Reply, rejected, queued,
  with_cluster,
}
use senlin.Service.Membership.{queue_or}

-- `req`: `adjustment_type`, and the sizes, are `none` where the request leaves them out and where
-- they are null; of `number` and `strict` both are told apart, a null as `some none`.
pub record ResizeRequest : Type 0 where
  pub adjustment_type : Option AdjustmentType
  pub number : Option (Option ℤ)
  pub min_size : Option ℤ
  pub max_size : Option ℤ
  pub min_step : Option ℤ
  pub strict : Option (Option Bool)

-- `count_by_cluster`
unfoldable pub in_cluster : ℕ → ℕ → NodeRow → Bool
in_cluster project cluster_id n =
    elim n.cluster_id [ none ↦ false | some c ↦ c == cluster_id ] && (n.key.project == project)

unfoldable pub count_by_cluster : Caller → Store → ℕ → ℕ
unfolding filter_by in_cluster
count_by_cluster caller store cluster_id =
    length (filter_by (in_cluster caller.project cluster_id) store.nodes)

-- What the first block of `cluster_resize` leaves in `adj_type`, `number` and `min_step`.
pub data Adjustment : Type 0 where
  bad : Rejection → Adjustment
  adjust : Option (AdjustmentType × ℤ) → Option ℤ → Adjustment

unfoldable pub typed_adjustment : AdjustmentType → ℤ → Option ℤ → Adjustment
typed_adjustment exact_capacity n min_step =
    if leb_ℤ n (pos 0) then bad number_not_positive else adjust (some (exact_capacity, n)) none
typed_adjustment change_in_capacity n min_step = adjust (some (change_in_capacity, n)) none
typed_adjustment change_in_percentage n min_step = adjust (some (change_in_percentage, n)) min_step

unfoldable pub adjustment_of : ResizeRequest → Option Adjustment
unfolding typed_adjustment
adjustment_of req = elim req.adjustment_type [
  | some adj_type ↦ elim req.number [
    | none ↦ some (bad missing_number)
    | some none ↦ none
    | some (some n) ↦ some (typed_adjustment adj_type n req.min_step)
  ]
  | none ↦ elim req.number [
    | none ↦ some (adjust none none)
    | some none ↦ some (adjust none none)
    | some (some n) ↦ some (bad missing_adjustment_type)
  ]
]

-- `strict`, which is `True` where the request does not have it.
unfoldable pub strict_of : Option (Option Bool) → Option Bool
strict_of none = some true
strict_of (some strict) = strict

-- `desired`, for a cluster with so many nodes
unfoldable pub desired_of : ℤ → Option (AdjustmentType × ℤ) → Option ℤ → Option ℤ
desired_of current none min_step = none
desired_of current (some (adj_type, number)) min_step =
    some (calculate_desired current adj_type number min_step)

-- The inputs of the action.
unfoldable pub resize_inputs : ResizeRequest → Option (AdjustmentType × ℤ) → Option ℤ → ResizeInputs
unfolding strict_of
resize_inputs req adjustment min_step = record {
  adjustment = adjustment;
  min_size = req.min_size;
  max_size = req.max_size;
  min_step = min_step;
  strict = strict_of req.strict;
}

-- The size checks of `cluster_resize`, and the creation of the action.
unfoldable pub queue_resize : Caller → ClusterRow → ℕ → ResizeInputs → Reply
unfolding desired_of queue_or is_true
queue_resize caller c current inputs =
    queue_or
      (check_size_params caller.max_nodes (some c.sizes)
        (desired_of (pos current) inputs.adjustment inputs.min_step) inputs.min_size inputs.max_size
        (is_true inputs.strict))
      (queued cluster_resize c.key.id (sizes inputs))

unfoldable pub with_adjustment : Caller → Store → ℕ → ResizeRequest → Adjustment → Option Reply
unfolding with_cluster count_by_cluster queue_resize resize_inputs
with_adjustment caller store identity req (bad message) = some (rejected message)
with_adjustment caller store identity req (adjust adjustment min_step) =
    with_cluster caller store identity (λ (c : ClusterRow). some (
      queue_resize caller c (count_by_cluster caller store c.key.id)
        (resize_inputs req adjustment min_step)))

unfoldable pub resize_request : Caller → Store → ℕ → ResizeRequest → Option Reply
unfolding adjustment_of with_adjustment
resize_request caller store identity req = do
  adjustment ← adjustment_of req
  with_adjustment caller store identity req adjustment

-- `check_size_params(db_cluster, target)`, which is not strict, and the creation of the action.
unfoldable pub queue_scaling : Caller → ClusterRow → ActionName → ℤ → ℕ → Reply
unfolding queue_or
queue_scaling caller c name target n =
    queue_or (check_size_params caller.max_nodes (some c.sizes) (some target) none none false)
      (queued name c.key.id (count (pos n)))

-- The count of a request is `none` where it is left out, and `some none` where it is null.
unfoldable pub scale_out_request : Caller → Store → ℕ → Option (Option ℕ) → Option Reply
unfolding with_cluster queue_scaling
scale_out_request caller store identity requested =
    with_cluster caller store identity (λ (c : ClusterRow). elim requested [
      | none ↦ some (queued cluster_scale_out c.key.id no_inputs)
      | some none ↦ none
      | some (some n) ↦ some (
          if n == 0
          then rejected zero_count
          else queue_scaling caller c cluster_scale_out (c.sizes.desired_capacity +ℤ pos n) n)
    ])

unfoldable pub scale_in_request : Caller → Store → ℕ → Option (Option ℕ) → Option Reply
unfolding with_cluster queue_scaling
scale_in_request caller store identity requested =
    with_cluster caller store identity (λ (c : ClusterRow). elim requested [
      | none ↦ some (queued cluster_scale_in c.key.id no_inputs)
      | some none ↦ none
      | some (some n) ↦ some (
          if n == 0
          then rejected zero_count
          else queue_scaling caller c cluster_scale_in (c.sizes.desired_capacity -ℤ pos n) n)
    ])
