-- ===== src/Engine/Locking.antt =====
-- senlin/engine/senlin_lock.py: locking for the actions of an engine, with forced locking and with
-- stealing from dead engines; `is_engine_dead` of senlin/common/utils.py.
pub mod Outcome
pub mod NodeOutcome
use Prim.Native.String.{String}
use senlin.Prelude.{
  ℕ, ◌+◌, Bool, true, false, not, Option, none, some, List, [], ◌∷◌, contains, ◌==◌, ltb,
  if◌then◌else◌, ◌>>=◌,
}
use senlin.Table.{lookup}
use senlin.Db.{Action, Db}
use senlin.Db.Actions.{action_get}
use senlin.Db.Cascade.{action_mark_failed}
use senlin.Db.Collect.{gc_by_engine}
use senlin.Db.Locks.{
  Scope, cluster_lock_acquire, cluster_lock_steal, node_lock_acquire, node_lock_steal,
}

-- What an attempt is made with: the project of the context, the time (`time.time()` and the clock
-- of `is_older_than`), the seconds after which an engine that has not reported is dead, and the
-- engine that asks.
pub record Asker : Type 0 where
  pub project : ℕ
  pub now : ℕ
  pub duration : ℕ
  pub engine : Option ℕ

-- The end of `is_engine_dead`, for the report of the engine.
unfoldable pub is_overdue : Asker → Option ℕ → Bool
is_overdue asker none = true
is_overdue asker (some updated_at) = ltb (updated_at + asker.duration) asker.now

unfoldable pub is_engine_dead : Asker → ℕ → Db → Bool
unfolding is_overdue
is_engine_dead asker engine db = is_overdue asker (lookup engine db.services)

-- `action.owner != engine`
unfoldable pub is_other : ℕ → Option ℕ → Bool
is_other owner none = true
is_other owner (some engine) = not (owner == engine)

-- The tests on `action.owner`.
unfoldable pub dead_engine : Asker → Db → Option ℕ → Option ℕ
unfolding is_other is_engine_dead
dead_engine asker db none = none
dead_engine asker db (some owner) =
    if is_other owner asker.engine
    then (if is_engine_dead asker owner db then some owner else none)
    else none

-- The condition of step 3: the dead engine that runs the action.
unfoldable pub dead_owner : Asker → Db → ℕ → Option ℕ
unfolding dead_engine
dead_owner asker db action_id = do
  action ← action_get (some asker.project) action_id db
  dead_engine asker db action.owner

-- Step 3 for a cluster lock after the test; the cleanup of the dead engine returns.
unfoldable pub steal_cluster : Asker → ℕ → ℕ → Option ℕ → Db → Option (Bool × Db)
steal_cluster asker cluster_id action_id none db = some (false, db)
steal_cluster asker cluster_id action_id (some engine) db =
    let (owners, stolen) = cluster_lock_steal cluster_id action_id db in
    do clean ← gc_by_engine engine asker.now stolen; some (contains owners action_id, clean)

-- Steps 2 and 3, where the action is not among the owners; `none` is the IndexError of `owners[0]`.
unfoldable pub force_cluster : Asker → ℕ → ℕ → Bool → List ℕ → Db → Option (Bool × Db)
unfolding steal_cluster dead_owner
force_cluster asker cluster_id action_id true owners db =
    let (owners', stolen) = cluster_lock_steal cluster_id action_id db in
    some (contains owners' action_id, stolen)
force_cluster asker cluster_id action_id false [] db = none
force_cluster asker cluster_id action_id false (owner ∷ owners) db =
    steal_cluster asker cluster_id action_id (dead_owner asker db owner) db

-- `cluster_lock_acquire` of senlin_lock.py
unfoldable pub acquire_cluster : Asker → ℕ → ℕ → Scope → Bool → Db → Option (Bool × Db)
unfolding force_cluster
acquire_cluster asker cluster_id action_id scope forced db =
    let (owners, locked) = cluster_lock_acquire cluster_id action_id scope db in
    let rest = force_cluster asker cluster_id action_id forced owners locked in
    if contains owners action_id then some (true, locked) else rest

-- Step 3 for a node lock, held by the action `owner`.
unfoldable pub steal_node : Asker → ℕ → ℕ → ℕ → Option ℕ → Db → Option (Bool × Db)
steal_node asker node_id action_id owner none db = some (false, db)
steal_node asker node_id action_id owner (some engine) db = do
  marked ←
      action_mark_failed owner asker.now (some "Engine died when executing this action.")
        (node_lock_steal node_id action_id db).1
  some (true, marked)

unfoldable pub force_node : Asker → ℕ → ℕ → Bool → ℕ → Db → Option (Bool × Db)
unfolding steal_node dead_owner
force_node asker node_id action_id true owner db =
    let (owner', stolen) = node_lock_steal node_id action_id db in
    some (action_id == owner', stolen)
force_node asker node_id action_id false owner db =
    steal_node asker node_id action_id owner (dead_owner asker db owner) db

-- `node_lock_acquire` of senlin_lock.py
unfoldable pub acquire_node : Asker → ℕ → ℕ → Bool → Db → Option (Bool × Db)
unfolding force_node
acquire_node asker node_id action_id forced db =
    let (owner, locked) = node_lock_acquire node_id action_id db in
    let rest = force_node asker node_id action_id forced owner locked in
    if action_id == owner then some (true, locked) else rest
