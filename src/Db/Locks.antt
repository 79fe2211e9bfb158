-- ===== src/Db/Locks.antt =====
-- The lock tables of senlin/db/sqlalchemy/api.py: `cluster_lock_acquire`, `_release_cluster_lock`,
-- `cluster_lock_release`, `cluster_lock_steal` and the `node_lock_*` functions.
pub mod Holding
pub mod Refinement
pub mod Stuck
pub mod NodeLocks
use senlin.Prelude.{
  ℕ, Bool, true, false, not, ◌&&◌, ◌||◌, Option, none, some, List, [], ◌∷◌, ◌++◌, contains, remove,
  ◌==◌, if◌then◌else◌,
}
use senlin.Prelude.Int.{ℤ, pos, negsuc, ltb_ℤ, ◌+ℤ◌, ◌-ℤ◌}
use senlin.Table.{lookup, insert, delete}
use senlin.Db.{ClusterLock, Db}

-- CLUSTER_SCOPE and NODE_SCOPE of senlin/engine/senlin_lock.py.
pub data Scope : Type 0 where
  cluster_scope node_scope : Scope

unfoldable pub scope_value : Scope → ℤ
scope_value cluster_scope = negsuc 0
scope_value node_scope = pos 1

-- `scope == 1`, and its negation `scope == -1`
unfoldable pub is_node : Scope → Bool
is_node cluster_scope = false
is_node node_scope = true

unfoldable pub is_cluster : Scope → Bool
is_cluster cluster_scope = true
is_cluster node_scope = false

-- `lock.semaphore == 1`
unfoldable pub is_one : ℤ → Bool
is_one (pos n) = n == 1
is_one (negsuc n) = false

-- The branch for a lock that is there already.
unfoldable pub join : ClusterLock → ℕ → Scope → ClusterLock
unfolding is_node
join lock action_id scope =
    if is_node scope && ltb_ℤ (pos 0) lock.semaphore && not (contains lock.action_ids action_id)
    then record lock {
      action_ids = lock.action_ids ++ action_id ∷ [];
      semaphore = lock.semaphore +ℤ pos 1;
    }
    else lock

-- The lock row after an attempt; its `action_ids` are what `cluster_lock_acquire` returns.
unfoldable pub acquired : Option ClusterLock → ℕ → Scope → ClusterLock
unfolding join scope_value
acquired none action_id scope = record {
  action_ids = action_id ∷ [];
  semaphore = scope_value scope;
}
acquired (some lock) action_id scope = join lock action_id scope

unfoldable pub cluster_lock_acquire : ℕ → ℕ → Scope → Db → List ℕ × Db
unfolding acquired
cluster_lock_acquire cluster_id action_id scope db =
    let lock = acquired (lookup cluster_id db.cluster_locks) action_id scope in
    (lock.action_ids, record db { cluster_locks = insert cluster_id lock db.cluster_locks })

-- `_release_cluster_lock`: the result, and the row, which is `none` once it is deleted.
unfoldable pub release_cluster_lock : ClusterLock → ℕ → Scope → Bool × Option ClusterLock
unfolding is_cluster is_one
release_cluster_lock lock action_id scope =
    if is_cluster scope && ltb_ℤ lock.semaphore (pos 0) || is_one lock.semaphore
    then (if contains lock.action_ids action_id then (true, none) else (false, some lock))
    else if contains lock.action_ids action_id
    then (if is_one lock.semaphore then (true, none) else (
      true,
      some (record lock {
        action_ids = remove lock.action_ids action_id;
        semaphore = lock.semaphore -ℤ pos 1;
      }),
    ))
    else (false, some lock)

-- The row of the table after `_release_cluster_lock`.
unfoldable pub put_back : ℕ → Option ClusterLock → List (ℕ × ClusterLock) → List (ℕ × ClusterLock)
put_back cluster_id none t = delete cluster_id t
put_back cluster_id (some lock) t = insert cluster_id lock t

-- `if lock is None: return False`: there is no row then, before and after.
unfoldable pub released : Option ClusterLock → ℕ → Scope → Bool × Option ClusterLock
unfolding release_cluster_lock
released none action_id scope = (false, none)
released (some lock) action_id scope = release_cluster_lock lock action_id scope

unfoldable pub cluster_lock_release : ℕ → ℕ → Scope → Db → Bool × Db
unfolding released put_back
cluster_lock_release cluster_id action_id scope db =
    let (success, row) = released (lookup cluster_id db.cluster_locks) action_id scope in
    (success, record db { cluster_locks = put_back cluster_id row db.cluster_locks })

unfoldable pub stolen : ℕ → ClusterLock
stolen action_id = record { action_ids = action_id ∷ []; semaphore = negsuc 0 }

unfoldable pub cluster_lock_steal : ℕ → ℕ → Db → List ℕ × Db
unfolding stolen
cluster_lock_steal cluster_id action_id db = (
  (stolen action_id).action_ids,
  record db { cluster_locks = insert cluster_id (stolen action_id) db.cluster_locks },
)

-- The owner of the lock after the attempt.
unfoldable pub node_lock_acquire : ℕ → ℕ → Db → ℕ × Db
node_lock_acquire node_id action_id db = elim (lookup node_id db.node_locks) [
  | none ↦ (action_id, record db { node_locks = insert node_id action_id db.node_locks })
  | some owner ↦ (owner, db)
]

unfoldable pub node_lock_release : ℕ → ℕ → Db → Bool × Db
node_lock_release node_id action_id db = elim (lookup node_id db.node_locks) [
  | none ↦ (false, db)
  | some owner ↦
      if owner == action_id
      then (true, record db { node_locks = delete node_id db.node_locks })
      else (false, db)
]

unfoldable pub node_lock_steal : ℕ → ℕ → Db → ℕ × Db
node_lock_steal node_id action_id db =
    (action_id, record db { node_locks = insert node_id action_id db.node_locks })
