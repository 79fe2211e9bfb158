-- ===== src/Policies/Placement/Check.antt =====
-- `_get_count` and `pre_op` of senlin/policies/region_placement.py and
-- senlin/policies/zone_placement.py. What Keystone and Nova say of the regions and zones, and the
-- details of a node, are arguments. `none` is a raised exception.
pub mod Outcome
use senlin.Prelude.{
  ℕ, zero, Bool, true, false, Option, none, some, List, [], ◌∷◌, contains, if◌then◌else◌, ◌>>=◌,
  map, length,
}
use senlin.Prelude.Int.{ℤ, pos, negsuc, neg, ltb_ℤ}
use senlin.Node.{Node}
use senlin.Scaling.Adjust.{
  Sizes, ResizeInputs, SizeError, ResizeResult, res_ok, res_error, deletion, creation,
  parse_resize_params,
}
use senlin.Engine.Cluster.{get_region_distribution, get_zone_distribution}
use senlin.Policies.Placement.{Region, Plan, no_plan, placed, create_plan}

-- The actions that the policies are checked for, with the inputs that they read. The node of
-- NODE_CREATE may have its region, or zone, in its profile.
pub data Request : Type 0 where
  node_create : Bool → Request
  cluster_resize : ResizeInputs → Request
  cluster_scale_in cluster_scale_out : Option ℤ → Request

-- `action.data`: the `deletion` and the `creation` that are there, with their `count`.
pub record Earlier : Type 0 where
  pub deletion_count : Option (Option ℤ)
  pub creation_count : Option (Option ℤ)

-- What `_get_count` returns, and the message that it writes with its zero.
pub data Count : Type 0 where
  counted : ℤ → Count
  bad_sizes : SizeError → Count

-- `pd.get('count', 1)`
unfoldable pub or_one : Option ℤ → ℤ
or_one none = pos 1
or_one (some n) = n

-- The end of the branch for CLUSTER_RESIZE.
unfoldable pub count_resize : ResizeResult → Count
unfolding neg
count_resize (res_error message) = bad_sizes message
count_resize (res_ok (deletion n)) = counted (neg (pos n))
count_resize (res_ok (creation n)) = counted (pos n)

unfoldable pub count_scale : Option (Option ℤ) → Option ℤ → ℤ
unfolding or_one
count_scale none input = or_one input
count_scale (some n) input = or_one n

unfoldable pub get_count : ℤ → Sizes → ℕ → Earlier → Request → Option Count
unfolding count_resize count_scale
get_count max_nodes cluster current earlier (node_create true) = some (counted (pos 0))
get_count max_nodes cluster current earlier (node_create false) = some (counted (pos 1))
get_count max_nodes cluster current earlier (cluster_scale_in input) =
    some (counted (neg (count_scale earlier.deletion_count input)))
get_count max_nodes cluster current earlier (cluster_scale_out input) =
    some (counted (count_scale earlier.creation_count input))
get_count max_nodes cluster current earlier (cluster_resize inputs) =
    let parsed = parse_resize_params max_nodes cluster inputs (some (pos current)) in
    elim earlier.deletion_count [
      -- data without a count is a KeyError
      | some n ↦ do d ← n; some (counted (neg d))
      | none ↦ elim earlier.creation_count [
        | some n ↦ do c ← n; some (counted c)
        | none ↦ some (count_resize parsed)
      ]
    ]

-- What `pre_op` writes into `action.data`.
pub data Placing : Type 0 where
  unchanged : Placing
  sizes_refused : SizeError → Placing
  none_usable no_feasible_plan : Placing
  creates deletes : ℤ → List (ℕ × ℤ) → Placing

-- `if not result`: an empty plan is none.
unfoldable pub as_outcome : Bool → ℤ → Plan → Placing
as_outcome expand count no_plan = no_feasible_plan
as_outcome expand count (placed []) = no_feasible_plan
as_outcome true count (placed (item ∷ plan)) = creates count (item ∷ plan)
as_outcome false count (placed (item ∷ plan)) = deletes count (item ∷ plan)

-- The items of the policy whose name is in the list.
unfoldable pub keep_usable : List ℕ → List Region → List Region
keep_usable good [] = []
keep_usable good (r ∷ rs) =
    let rest = keep_usable good rs in if contains good r.name then r ∷ rest else rest

-- `pre_op` of the region policy for a positive number of nodes; `good` are the valid regions.
unfoldable pub place_regions : List ℕ → List Region → List Node → ℤ → Bool → Option Placing
unfolding as_outcome keep_usable
place_regions [] regions nodes count expand = some none_usable
place_regions (g ∷ gs) regions nodes count expand = do
  plan ←
      create_plan (get_region_distribution (g ∷ gs) nodes) (keep_usable (g ∷ gs) regions) count
        expand
  some (as_outcome expand count plan)

-- The same of the zone policy, whose zones have no cap.
unfoldable pub place_zones :
    (Node → Option ℕ) → List ℕ → List Region → List Node → ℤ → Bool → Option Placing
unfolding as_outcome keep_usable
place_zones details [] zones nodes count expand = some none_usable
place_zones details (g ∷ gs) zones nodes count expand =
    let good = keep_usable (g ∷ gs) zones in
    do
      current ← get_zone_distribution (map (λ z. z.name) good) details nodes
      plan ← create_plan current good count expand
      some (as_outcome expand count plan)

-- The first lines of `pre_op`, which choose the direction.
unfoldable pub by_sign : (ℤ → Bool → Option Placing) → Count → Option Placing
unfolding neg
by_sign place (bad_sizes message) = some (sizes_refused message)
by_sign place (counted (pos zero)) = some unchanged
by_sign place (counted (pos n)) = place (pos n) true
by_sign place (counted (negsuc n)) = place (neg (negsuc n)) false

unfoldable pub region_pre_op :
    ℤ → List ℕ → List Region → List Node → Sizes → Earlier → Request → Option Placing
unfolding get_count by_sign place_regions
region_pre_op max_nodes good regions nodes cluster earlier request =
    let current = length nodes in
    do
      count ← get_count max_nodes cluster current earlier request
      by_sign (place_regions good regions nodes) count

unfoldable pub zone_pre_op :
    ℤ
    → (Node → Option ℕ)
    → List ℕ
    → List Region
    → List Node
    → Sizes
    → Earlier
    → Request
    → Option Placing
unfolding get_count by_sign place_zones
zone_pre_op max_nodes details good zones nodes cluster earlier request =
    let current = length nodes in
    do
      count ← get_count max_nodes cluster current earlier request
      by_sign (place_zones details good zones nodes) count
