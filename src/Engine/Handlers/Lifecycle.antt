-- ===== src/Engine/Handlers/Lifecycle.antt =====
-- `do_create`, `do_update`, `_update_nodes`, `do_delete`, `do_check`, `do_recover` and
-- `_check_capacity` of senlin/engine/actions/cluster_action.py, with the operations of the same
-- names of senlin/engine/cluster.py. The properties other than the profile, the pauses between
-- batches and the clean-up of action records are left out.
pub mod Batches
use senlin.Prelude.{
  ℕ, Bool, true, false, Option, none, some, List, [], ◌∷◌, ◌++◌, map, length, if◌then◌else◌, ◌>>=◌,
}
use senlin.Prelude.Int.{ℤ, pos, ◌-ℤ◌, ltb_ℤ}
use senlin.Db.{ActionName, node_update, node_check, node_recover}
use senlin.Node.{Node, active}
use senlin.Scaling.Victims.{nodes_by_random}
use senlin.Engine.Results.{ActionResult, res_ok, res_error}
use senlin.Engine.Handlers.{
  World, Setting, ClusterStatus, in_creation, in_update, in_deletion, in_check, in_recovery,
  in_error, evaluate, start_children, delete_nodes, Placements, create_nodes,
}

-- `set_status(context, status, reason)`
unfoldable pub set_cluster_status : ClusterStatus → World → World
set_cluster_status status w = record w { status = status }

-- The result, and the cluster evaluated.
unfoldable pub evaluated_end : ActionResult × World → ActionResult × World
unfolding evaluate
evaluated_end (result, w) = (result, evaluate w)

-- `is_init` tells whether the status of the object is INIT.
unfoldable pub do_cluster_create :
    Setting → Bool → Placements → World → Option (ActionResult × World)
unfolding set_cluster_status evaluated_end create_nodes
do_cluster_create setting false placements w = some (res_error, set_cluster_status in_error w)
do_cluster_create setting true placements w = do
  ended ← create_nodes setting placements w.own.desired_capacity (set_cluster_status in_creation w)
  some (evaluated_end ended)

-- The derived actions for a list of nodes and the wait for them, where there is any.
unfoldable pub run_children : Setting → ActionName → List ℕ → World → Option (ActionResult × World)
run_children setting name [] w = some (res_ok, w)
run_children setting name (i ∷ is) w = setting.wait (start_children name (i ∷ is) w)

-- The next batch runs if all before it went well.
unfoldable pub after_batch :
    (World → Option (ActionResult × World)) → ActionResult × World → Option (ActionResult × World)
after_batch rest (ActionResult.res_ok, w) = rest w
after_batch rest (result, w) = some (result, w)

-- The loop over the plan of `_update_nodes`.
unfoldable pub update_batches : Setting → List (List ℕ) → World → Option (ActionResult × World)
unfolding run_children after_batch
update_batches setting [] w = some (res_ok, w)
update_batches setting (batch ∷ plan) w = do
  ended ← run_children setting node_update batch w
  after_batch (update_batches setting plan) ended

-- `self.data['update']['plan']`, or else all the nodes in one batch.
unfoldable pub plan_or_all : Option (List (List ℕ)) → World → List (List ℕ)
plan_or_all (some plan) w = plan
plan_or_all none w = map (λ n. n.id) w.loaded ∷ []

-- The result of an update, the world, and the profile that is saved with the cluster, if a new one is.
pub record Updated : Type 0 where
  pub result : ActionResult
  pub world : World
  pub saved_profile : Option ℕ

-- The end of `_update_nodes`.
unfoldable pub after_update : ℕ → ActionResult × World → Updated
unfolding evaluate
after_update profile (ActionResult.res_ok, w) = record {
  result = res_ok;
  world = evaluate w;
  saved_profile = some profile;
}
after_update profile (result, w) = record {
  result = result;
  world = evaluate w;
  saved_profile = none;
}

unfoldable pub do_cluster_update :
    Setting → Option ℕ → Bool → Option (List (List ℕ)) → World → Option Updated
unfolding set_cluster_status evaluate update_batches plan_or_all after_update
do_cluster_update setting none profile_only plan w = some (record {
  result = res_ok;
  world = evaluate (set_cluster_status in_update w);
  saved_profile = none;
})
do_cluster_update setting (some profile) true plan w = some (record {
  result = res_ok;
  world = evaluate (set_cluster_status in_update w);
  saved_profile = some profile;
})
do_cluster_update setting (some profile) false plan w = do
  ended ← update_batches setting (plan_or_all plan w) (set_cluster_status in_update w)
  some (after_update profile ended)

-- What is left of a cluster after its deletion: nothing, or the world with the result.
pub data Deleted : Type 0 where
  row_deleted : Deleted
  kept_cluster : ActionResult → World → Deleted

unfoldable pub after_nodes : ActionResult × World → Deleted
unfolding evaluate
after_nodes (ActionResult.res_ok, w) = row_deleted
after_nodes (result, w) = kept_cluster result (evaluate w)

unfoldable pub do_cluster_delete : Setting → World → Option Deleted
unfolding set_cluster_status after_nodes delete_nodes
do_cluster_delete setting w = do
  ended ← delete_nodes setting true (map (λ n. n.id) w.loaded) (set_cluster_status in_deletion w)
  some (after_nodes ended)

unfoldable pub do_cluster_check : Setting → World → Option (ActionResult × World)
unfolding set_cluster_status run_children evaluated_end
do_cluster_check setting w = do
  ended ← run_children setting node_check (map (λ n. n.id) w.loaded) (set_cluster_status in_check w)
  some (evaluated_end ended)

-- The nodes that are not active.
unfoldable pub to_recover : List Node → List ℕ
to_recover [] = []
to_recover (n ∷ ns) = let rest = to_recover ns in elim n.status [ active ↦ rest | _ ↦ n.id ∷ rest ]

-- `_check_capacity`, which looks at no result; `destroy` is that of the data of the action.
unfoldable pub check_capacity : Setting → Bool → Placements → World → Option World
unfolding create_nodes delete_nodes
check_capacity setting destroy placements w =
    let current = pos (length w.loaded) in
    let desired = w.own.desired_capacity in
    let grow = (do
      (result, w') ← create_nodes setting placements (desired -ℤ current) w
      some w') in
    let cut = (do
      ids ← nodes_by_random setting.draw w.rows (current -ℤ desired)
      (result, w') ← delete_nodes setting destroy ids w
      some w') in
    if ltb_ℤ current desired then grow else if ltb_ℤ desired current then cut else some w

-- `examine` is the nodes as they are looked at, after their checks if these are asked for, and the
-- world then.
unfoldable pub do_cluster_recover :
    Setting
    → (World → List Node × World)
    → Bool
    → Bool
    → Placements
    → World
    → Option (ActionResult × World)
unfolding set_cluster_status to_recover run_children check_capacity evaluate
do_cluster_recover setting examine with_capacity destroy placements w =
    let (nodes, w1) = examine (set_cluster_status in_recovery w) in
    do
      (result, w2) ← run_children setting node_recover (to_recover nodes) w1
      w3 ← (if with_capacity then check_capacity setting destroy placements w2 else some w2)
      some (result, evaluate w3)
