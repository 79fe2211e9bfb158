-- ===== src/Engine/Execution/ClusterLevel.antt =====
-- A cluster action runs only with its cluster locked, and leaves the lock as an unlock does.
use senlin.Prelude.{ℕ, ◌≡◌, refl, ◌∙◌, Bool, true, some, contains}
use senlin.Table.{lookup}
use senlin.Db.{ActionName, Db}
use senlin.Db.Locks.{Scope, cluster_scope, cluster_lock_acquire, cluster_lock_release}
use senlin.Db.Locks.Holding.{Held, free, exclusive, shared, Represents, Matches, lock, unlock}
use senlin.Db.Locks.Refinement.{cluster_lock_acquire-Represents, cluster_lock_release-Represents}
use senlin.Engine.Locking.{Asker, acquire_cluster}
use senlin.Engine.Waiting.{Ended}
use senlin.Engine.Execution.{release_cluster, cluster_execute}

-- An attempt that finds the lock free or its own takes it without force.
pub acquire_cluster-gets :
    (asker : Asker) (c a : ℕ) (s : Scope) (forced : Bool) (db : Db)
    → contains (cluster_lock_acquire c a s db).0 a ≡ true
    → acquire_cluster asker c a s forced db ≡ some (true, (cluster_lock_acquire c a s db).1)
unfolding acquire_cluster
acquire_cluster-gets asker c a s forced db h = rw h refl

locked-Matches : (h : Held) (a : ℕ) → Matches (lock h a cluster_scope).1 cluster_scope
unfolding lock
locked-Matches free a = refl
locked-Matches (exclusive b) a = refl
locked-Matches (shared holders) a = tt

-- Where the lock of its cluster is there for a cluster action, and its code leaves the row of the
-- lock alone, `execute` ends as the code does on the locked database, by a result or an exception,
-- and the lock is then in the state after a lock and an unlock.
pub cluster_execute-Represents :
    (asker : Asker) (name : ActionName) (c a : ℕ) (body : Db → Ended × Db) (db : Db) (h : Held)
    → Represents (lookup c db.cluster_locks) h
    → (lock h a cluster_scope).0 ≡ true
    → lookup c (body (cluster_lock_acquire c a cluster_scope db).1).1.cluster_locks
      ≡ lookup c (cluster_lock_acquire c a cluster_scope db).1.cluster_locks
    → (db' : Db) × (cluster_execute asker name c a body db
        ≡ some ((body (cluster_lock_acquire c a cluster_scope db).1).0, db'))
      × Represents (lookup c db'.cluster_locks) (unlock (lock h a cluster_scope).1 a).1
unfolding cluster_execute release_cluster
cluster_execute-Represents asker name c a body db h row there keeps =
    let (held, owned, _) = cluster_lock_acquire-Represents c a cluster_scope db h row c in
    let ran = body (cluster_lock_acquire c a cluster_scope db).1 in
    let still : Represents (lookup c ran.1.cluster_locks) (lock h a cluster_scope).1 =
      rw keeps held in
    (
      (cluster_lock_release c a cluster_scope ran.1).1,
      rw (acquire_cluster-gets asker c a cluster_scope _ db (owned ∙ there)) refl,
      (cluster_lock_release-Represents c a cluster_scope ran.1 (lock h a cluster_scope).1 still c
          (locked-Matches h a)).0,
    )
