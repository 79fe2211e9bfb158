-- ===== src/Policies/Deletion.antt =====
-- senlin/policies/deletion_policy.py: the choice of the nodes to delete, `pre_op`.
pub mod Counts
pub mod Regions
use senlin.Prelude.{
  ℕ, Bool, true, false, Option, none, some, List, [], ◌∷◌, ◌++◌, length, if◌then◌else◌, ◌>>=◌,
}
use senlin.Prelude.Int.{ℤ, pos, ltb_ℤ}
use senlin.Node.{Node}
use senlin.Scaling.Adjust.{
  Sizes, ResizeInputs, SizeError, ResizeResult, res_ok, res_error, deletion, creation,
  parse_resize_params,
}
use senlin.Scaling.Victims.{nodes_by_random, nodes_by_age, nodes_by_profile_age}
use senlin.Scaling.Victims.Sorting.{sort_by}
use senlin.Engine.Cluster.{nodes_by_region, nodes_by_zone}

pub data Criteria : Type 0 where
  oldest_first oldest_profile_first youngest_first random : Criteria

-- The selection that the criteria name; `none` is a raised exception, and `draw` the random
-- numbers.
unfoldable pub pick_victims : (ℕ → ℕ → ℕ) → Criteria → List Node → ℤ → Option (List ℕ)
pick_victims draw random nodes count = nodes_by_random draw nodes count
pick_victims draw oldest_profile_first nodes count = nodes_by_profile_age nodes count
pick_victims draw oldest_first nodes count = nodes_by_age nodes count true
pick_victims draw youngest_first nodes count = nodes_by_age nodes count false

-- The loop of `_victims_by_regions` and of `_victims_by_zones`, over the sorted keys with their
-- counts; `members` are the nodes of a key, and `draw` the random numbers at each key.
unfoldable pub victims_by :
    (ℕ → ℕ → ℕ → ℕ) → Criteria → (ℕ → List Node) → List (ℕ × ℤ) → Option (List ℕ)
unfolding pick_victims
victims_by draw criteria members [] = some []
victims_by draw criteria members ((key, count) ∷ rest) = do
  candidates ← pick_victims (draw key) criteria (members key) count
  others ← victims_by draw criteria members rest
  some (candidates ++ others)

-- `_victims_by_regions` and `_victims_by_zones`, of a dict as its items.
unfoldable pub victims_by_regions :
    (ℕ → ℕ → ℕ → ℕ) → Criteria → List Node → List (ℕ × ℤ) → Option (List ℕ)
unfolding victims_by
victims_by_regions draw criteria nodes regions =
    victims_by draw criteria (λ r. nodes_by_region r nodes) (sort_by (λ item. item.0) regions)

unfoldable pub victims_by_zones :
    (ℕ → ℕ → ℕ → ℕ) → Criteria → List Node → List (ℕ × ℤ) → Option (List ℕ)
unfolding victims_by
victims_by_zones draw criteria nodes zones =
    victims_by draw criteria (λ z. nodes_by_zone z nodes) (sort_by (λ item. item.0) zones)

-- The actions that the policy is checked for, with the inputs that it reads; one of another name is
-- treated as a resize.
pub data Request : Type 0 where
  node_delete : ℕ → Request
  cluster_scale_in : Option ℤ → Request
  cluster_resize : ResizeInputs → Request

-- `action.data['deletion']` of an earlier policy.
pub record Decision : Type 0 where
  pub count : ℤ
  pub regions : List (ℕ × ℤ)
  pub zones : List (ℕ × ℤ)

-- What `action.data` receives: victims (with their number and the policy's settings, which are left
-- out), an error, or nothing.
pub data Deletion : Type 0 where
  victims : List ℕ → Deletion
  deletion_error : SizeError → Deletion
  no_deletion : Deletion

-- `count > len(cluster.nodes)`
unfoldable pub at_most : ℤ → ℕ → ℤ
at_most count total = if ltb_ℤ (pos total) count then pos total else count

unfoldable pub as_victims : Option (List ℕ) → Option Deletion
as_victims none = none
as_victims (some ids) = some (victims ids)

-- The last part of `pre_op`, with no regions and no zones.
unfoldable pub by_count : (ℕ → ℕ → ℕ) → Criteria → List Node → ℤ → Option Deletion
unfolding at_most as_victims pick_victims
by_count draw criteria nodes count =
    as_victims (pick_victims draw criteria nodes (at_most count (length nodes)))

-- The parts for regions and zones; an empty dict is falsy.
unfoldable pub by_decision :
    (ℕ → ℕ → ℕ → ℕ) → Criteria → List Node → ℤ → List (ℕ × ℤ) → List (ℕ × ℤ) → Option Deletion
unfolding by_count victims_by_regions victims_by_zones
by_decision draw criteria nodes count (r ∷ rs) zones =
    as_victims (victims_by_regions draw criteria nodes (r ∷ rs))
by_decision draw criteria nodes count [] (z ∷ zs) =
    as_victims (victims_by_zones draw criteria nodes (z ∷ zs))
by_decision draw criteria nodes count [] [] = by_count (draw 0) criteria nodes count

unfoldable pub by_resize : (ℕ → ℕ → ℕ) → Criteria → List Node → ResizeResult → Option Deletion
unfolding by_count
by_resize draw criteria nodes (res_error message) = some (deletion_error message)
by_resize draw criteria nodes (res_ok (creation count)) = some no_deletion
by_resize draw criteria nodes (res_ok (deletion count)) = by_count draw criteria nodes (pos count)

-- `action.inputs.get('count', 1)`
unfoldable pub input_count : Option ℤ → ℤ
input_count none = pos 1
input_count (some count) = count

-- `pre_op` where the inputs have no candidates.
unfoldable pub choose :
    ℤ → (ℕ → ℕ → ℕ → ℕ) → Criteria → List Node → Sizes → Option Decision → Request → Option Deletion
unfolding by_decision by_resize input_count
choose max_nodes draw criteria nodes cluster decision (node_delete id) = some (victims (id ∷ []))
choose max_nodes draw criteria nodes cluster (some d) (cluster_scale_in count) =
    by_decision draw criteria nodes d.count d.regions d.zones
choose max_nodes draw criteria nodes cluster (some d) (cluster_resize inputs) =
    by_decision draw criteria nodes d.count d.regions d.zones
choose max_nodes draw criteria nodes cluster none (cluster_scale_in count) =
    by_count (draw 0) criteria nodes (input_count count)
choose max_nodes draw criteria nodes cluster none (cluster_resize inputs) =
    by_resize (draw 0) criteria nodes
      (parse_resize_params max_nodes cluster inputs (some (pos (length nodes))))

-- `pre_op`, with the `candidates` of the inputs.
unfoldable pub pre_op :
    ℤ
    → (ℕ → ℕ → ℕ → ℕ)
    → Criteria
    → List Node
    → Sizes
    → List ℕ
    → Option Decision
    → Request
    → Option Deletion
unfolding choose
pre_op max_nodes draw criteria nodes cluster (a ∷ as_) decision request = some (victims (a ∷ as_))
pre_op max_nodes draw criteria nodes cluster [] decision request =
    choose max_nodes draw criteria nodes cluster decision request
