-- ===== src/Db/Collect.antt =====
-- `gc_by_engine` of senlin/db/sqlalchemy/api.py: what a dead engine's actions leave is cleaned up.
pub mod Cleanup
pub mod Engine
use Prim.Native.String.{String}
use senlin.Prelude.{
  ℕ, suc, Bool, true, false, Option, none, some, List, [], ◌∷◌, ◌==◌, if◌then◌else◌, ◌>>=◌,
}
use senlin.Db.{Action, ClusterLock, Db}
use senlin.Db.Locks.{cluster_scope, node_scope, release_cluster_lock}
use senlin.Db.Cascade.{for_each, action_mark_failed}

-- `filter_by(action_id=a).delete()` on the node locks
unfoldable pub drop_node_locks : ℕ → List (ℕ × ℕ) → List (ℕ × ℕ)
drop_node_locks a [] = []
drop_node_locks a ((n, owner) ∷ t) =
    let rest = drop_node_locks a t in if owner == a then rest else (n, owner) ∷ rest

-- One round of the loop over all cluster locks: at the scope of the cluster, and if that fails at
-- the scope of a node.
unfoldable pub collect_lock : ℕ → ClusterLock → Option ClusterLock
unfolding release_cluster_lock
collect_lock a lock =
    let (res, row) = release_cluster_lock lock a cluster_scope in
    if res then row else (release_cluster_lock lock a node_scope).1

-- A row that is kept or deleted.
abbrev pub cons_row : ℕ → Option ClusterLock → List (ℕ × ClusterLock) → List (ℕ × ClusterLock)
cons_row c none rest = rest
cons_row c (some lock) rest = (c, lock) ∷ rest

unfoldable pub collect_locks : ℕ → List (ℕ × ClusterLock) → List (ℕ × ClusterLock)
unfolding collect_lock
collect_locks a [] = []
collect_locks a ((c, lock) ∷ t) = cons_row c (collect_lock a lock) (collect_locks a t)

-- `filter_by(owner=engine_id)`
unfoldable pub is_owned_by : ℕ → Option ℕ → Bool
is_owned_by engine none = false
is_owned_by engine (some o) = o == engine

unfoldable pub owned_ids : ℕ → List (ℕ × Action) → List ℕ
unfolding is_owned_by
owned_ids engine [] = []
owned_ids engine ((a, act) ∷ t) =
    let rest = owned_ids engine t in if is_owned_by engine act.owner then a ∷ rest else rest

-- The body of the loop over the engine's actions.
unfoldable pub collect_action : ℕ → ℕ → Db → Option Db
unfolding action_mark_failed
collect_action timestamp a db = action_mark_failed a timestamp (some "Engine failure") (record db {
  node_locks = drop_node_locks a db.node_locks;
  cluster_locks = collect_locks a db.cluster_locks;
})

unfoldable pub gc_by_engine : ℕ → ℕ → Db → Option Db
unfolding collect_action owned_ids
gc_by_engine engine timestamp db =
    for_each (collect_action timestamp) (owned_ids engine db.actions) db
