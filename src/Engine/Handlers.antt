-- ===== src/Engine/Handlers.antt =====
-- `_create_nodes` and `_delete_nodes` of senlin/engine/actions/cluster_action.py, with the
-- `set_status`, `eval_status`, `add_node` and `remove_node` of senlin/engine/cluster.py.
-- What the other engines do while the action waits for its dependents is an argument. `none` is a
-- raised exception.
pub mod Resizing
pub mod NewSize
pub mod Members
pub mod Lifecycle
pub mod ScaleIn
pub mod ScaleOut
use senlin.Prelude.{
  ℕ, zero, suc, Bool, true, false, not, Option, none, some, List, [], ◌∷◌, ◌++◌, map, length, ◌==◌,
  get_elem?, if◌then◌else◌, ◌>>=◌,
}
use senlin.Prelude.Int.{ℤ, pos, negsuc, ◌+ℤ◌, ◌-ℤ◌, ltb_ℤ}
use senlin.Db.{ActionName, node_create, node_delete, node_leave}
use senlin.Node.{Node, init}
use senlin.Scaling.Adjust.{
  Sizes, SizeError, ResizeInputs, ResizeResult, res_ok, res_error, deletion, creation,
  check_size_params, parse_resize_params,
}
use senlin.Scaling.Victims.{nodes_by_random}
use senlin.Engine.Cluster.{ClusterHealth, eval_status}
use senlin.Engine.Results.{ActionResult}

-- The statuses that the handlers set.
pub data ClusterStatus : Type 0 where
  resizing : ClusterStatus
  evaluated : ClusterHealth → ClusterStatus
  earlier : ClusterStatus
  in_creation in_update in_deletion in_check in_recovery in_error : ClusterStatus

-- What the handlers read and write: the sizes of the object and of its row, the status in the row,
-- the nodes that the object holds and those of the database, and the derived actions that were
-- made ready.
pub record World : Type 0 where
  pub own : Sizes
  pub saved : Sizes
  pub status : ClusterStatus
  pub loaded : List Node
  pub rows : List Node
  pub started : List (ActionName × ℕ)

-- The configuration, the random numbers, the ids that new nodes get, the age of the profile, and
-- the wait for the dependents.
pub record Setting : Type 0 where
  pub max_nodes : ℤ
  pub draw : ℕ → ℕ → ℕ
  pub new_id : ℕ → ℕ
  pub profile_created_at : ℕ
  pub wait : World → Option (ActionResult × World)

-- `set_status(context, CS_RESIZING, reason, desired_capacity=desired, ...)`
unfoldable pub set_resizing : (Sizes → Sizes) → World → World
set_resizing change w = record w { own = change w.own; saved = change w.saved; status = resizing }

abbrev pub with_desired : ℤ → Sizes → Sizes
with_desired desired sizes = record sizes { desired_capacity = desired }

-- `eval_status` without parameters, on a cluster whose nodes are loaded anew.
unfoldable pub evaluate : World → World
evaluate w = record w {
  loaded = w.rows;
  status = evaluated (eval_status w.rows w.own none none none);
}

-- `remove_node`: the loop runs over the list that it takes the nodes from, so that it passes over
-- the node after each that it removes.
unfoldable mutual
  pub remove_node : ℕ → List Node → List Node
  remove_node node_id [] = []
  remove_node node_id (n ∷ ns) =
      let skipped = pass_over node_id ns in
      let others = remove_node node_id ns in if n.id == node_id then skipped else n ∷ others

  pub pass_over : ℕ → List Node → List Node
  pass_over node_id [] = []
  pass_over node_id (n ∷ ns) = n ∷ remove_node node_id ns

unfoldable pub remove_nodes : List ℕ → List Node → List Node
unfolding remove_node
remove_nodes [] nodes = nodes
remove_nodes (i ∷ is) nodes = remove_nodes is (remove_node i nodes)

-- The creation of the derived actions, which are made ready.
abbrev pub start_children : ActionName → List ℕ → World → World
start_children name targets w = record w {
  started = w.started ++ map (λ target. (name, target)) targets;
}

-- `destroy_after_deletion`
unfoldable pub delete_action : Bool → ActionName
delete_action true = node_delete
delete_action false = node_leave

-- The end of `_delete_nodes`.
unfoldable pub after_deletion : List ℕ → ActionResult × World → ActionResult × World
unfolding remove_nodes
after_deletion ids (ActionResult.res_ok, w) =
    (ActionResult.res_ok, record w { loaded = remove_nodes ids w.loaded })
after_deletion ids (result, w) = (result, w)

unfoldable pub delete_nodes : Setting → Bool → List ℕ → World → Option (ActionResult × World)
unfolding delete_action after_deletion
delete_nodes setting destroy [] w = some (ActionResult.res_ok, w)
delete_nodes setting destroy (i ∷ is) w = do
  waited ← setting.wait (start_children (delete_action destroy) (i ∷ is) w)
  some (after_deletion (i ∷ is) waited)

-- The region and the zone of each new node, where a policy has decided them.
abbrev pub Placements : Type 0
Placements = Option (List (Option ℕ × Option ℕ))

-- `placement['placements'][m]`
unfoldable pub placement_of : Placements → ℕ → Option (Option ℕ × Option ℕ)
placement_of none m = some (none, none)
placement_of (some places) m = get_elem? places m

unfoldable pub new_node : Setting → ℕ → Option ℕ × Option ℕ → Node
new_node setting m (region_name, zone) = record {
  id = setting.new_id m;
  status = init;
  created_at = none;
  profile_created_at = setting.profile_created_at;
  region_name = region_name;
  zone = zone;
}

-- The loop of `_create_nodes`, from the node `m` on.
unfoldable pub new_nodes : Setting → Placements → ℕ → ℕ → Option (List Node)
unfolding placement_of new_node
new_nodes setting placements m zero = some []
new_nodes setting placements m (suc k) = do
  place ← placement_of placements m
  rest ← new_nodes setting placements (suc m) k
  some (new_node setting m place ∷ rest)

-- The end of `_create_nodes`.
unfoldable pub after_creation : List Node → ActionResult × World → ActionResult × World
after_creation nodes (ActionResult.res_ok, w) =
    (ActionResult.res_ok, record w { loaded = w.loaded ++ nodes })
after_creation nodes (result, w) = (result, w)

-- `_create_nodes`; `range` of a negative number is empty.
unfoldable pub in_range : ℤ → ℕ
in_range (pos n) = n
in_range (negsuc n) = 0

unfoldable pub create_nodes : Setting → Placements → ℤ → World → Option (ActionResult × World)
unfolding in_range new_nodes after_creation
create_nodes setting placements (pos zero) w = some (ActionResult.res_ok, w)
create_nodes setting placements count w = do
  nodes ← new_nodes setting placements 0 (in_range count)
  waited ←
      setting.wait
        (start_children node_create (map (λ n. n.id) nodes) (record w { rows = w.rows ++ nodes }))
  some (after_creation nodes waited)
