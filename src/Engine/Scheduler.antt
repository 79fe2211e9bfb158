-- ===== src/Engine/Scheduler.antt =====
-- `start_action` of senlin/engine/scheduler.py: an engine takes the ready actions, one after the
-- other, and launches a thread for each. What the launched threads and the other engines do to the
-- database before each attempt, while the engine sleeps or not, is an argument.
pub mod Launches
pub mod Batches
use senlin.Prelude.{
  ℕ, zero, suc, ◌+◌, Bool, true, false, ◌&&◌, Option, none, some, List, [], ◌∷◌, ◌++◌, ltb,
  if◌then◌else◌, ◌>>=◌,
}
use senlin.Db.{
  Action, ActionName, cluster_create, cluster_delete, cluster_update, cluster_add_nodes,
  cluster_del_nodes, cluster_resize, cluster_check, cluster_recover, cluster_replace_nodes,
  cluster_scale_out, cluster_scale_in, cluster_attach_policy, cluster_detach_policy,
  cluster_update_policy, cluster_operation, node_create, node_delete, node_update, node_join,
  node_leave, node_check, node_recover, node_operation, custom, Db,
}
use senlin.Db.Actions.{action_acquire, action_acquire_random_ready}

-- `'NODE' in action.action`; `other` tells it of the custom actions.
unfoldable pub has_node : Bool → ActionName → Bool
has_node other cluster_create = false
has_node other cluster_delete = false
has_node other cluster_update = false
has_node other cluster_add_nodes = true
has_node other cluster_del_nodes = true
has_node other cluster_resize = false
has_node other cluster_check = false
has_node other cluster_recover = false
has_node other cluster_replace_nodes = true
has_node other cluster_scale_out = false
has_node other cluster_scale_in = false
has_node other cluster_attach_policy = false
has_node other cluster_detach_policy = false
has_node other cluster_update_policy = false
has_node other cluster_operation = false
has_node other node_create = true
has_node other node_delete = true
has_node other node_update = true
has_node other node_join = true
has_node other node_leave = true
has_node other node_check = true
has_node other node_recover = true
has_node other node_operation = true
has_node other custom = other

-- What the loop does: it launches an action, of a batch or not, or sleeps.
pub data Event : Type 0 where
  launch_batched launch_other : ℕ → Event
  pause : Event

-- The configured `max_actions_per_batch`, and what custom actions are named.
pub record Batching : Type 0 where
  pub max_actions_per_batch : ℕ
  pub custom_has_node : Bool

-- `batch_size > 0 and 'NODE' in action.action`
unfoldable pub is_batched : Batching → Action → Bool
unfolding has_node
is_batched batching act =
    ltb 0 batching.max_actions_per_batch && has_node batching.custom_has_node act.name

-- The branches of the loop for an acquired action: the events, and `actions_launched`.
unfoldable pub launch_one : Batching → ℕ → ℕ → Action → List Event × ℕ
unfolding is_batched
launch_one batching launched a act =
    if is_batched batching act
    then (if ltb launched batching.max_actions_per_batch
        then (launch_batched a ∷ [], suc launched)
        else (pause ∷ launch_batched a ∷ [], 1))
    else (launch_other a ∷ [], launched)

-- The `while` loop, with `others` for what happens between its rounds; `none` is out of fuel.
unfoldable pub launch_ready :
    (List (ℕ × Action) → ℕ)
    → (ℕ → ℕ)
    → (ℕ → Db → Db)
    → ℕ
    → Batching
    → ℕ
    → ℕ
    → Db
    → Option (List Event × Db)
unfolding launch_one
launch_ready choose clock others engine batching zero launched db = none
launch_ready choose clock others engine batching (suc fuel) launched db =
    let (got, db') = action_acquire_random_ready choose engine (clock fuel) (others fuel db) in
    elim got [
      | none ↦ some ([], db')
      | some (a, act) ↦
          let (events, launched') = launch_one batching launched a act in
          do
            (rest, end) ← launch_ready choose clock others engine batching fuel launched' db'
            some (events ++ rest, end)
    ]

-- The action that the call is for, if it can be acquired.
unfoldable pub launch_first : Batching → ℕ → ℕ → Option ℕ → Db → List Event × ℕ × Db
unfolding is_batched
launch_first batching engine timestamp none db = ([], 0, db)
launch_first batching engine timestamp (some a) db =
    let (got, db') = action_acquire a engine timestamp db in
    elim got [
      | none ↦ ([], 0, db')
      | some act ↦
          ((if is_batched batching act then launch_batched a else launch_other a) ∷ [], 1, db')
    ]

unfoldable pub start_action :
    (List (ℕ × Action) → ℕ)
    → (ℕ → ℕ)
    → (ℕ → Db → Db)
    → ℕ
    → Batching
    → ℕ
    → Option ℕ
    → Db
    → Option (List Event × Db)
unfolding launch_ready launch_first
start_action choose clock others engine batching fuel action_id db =
    let (first, launched, db') = launch_first batching engine (clock fuel) action_id db in
    do
      (rest, end) ← launch_ready choose clock others engine batching fuel launched db'
      some (first ++ rest, end)
