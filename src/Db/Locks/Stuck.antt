-- ===== src/Db/Locks/Stuck.antt =====
-- A steal locks a cluster at the scope of the cluster, also for an action that asked for the scope
-- of a node and that will release it so. What follows of such a release.
use senlin.Prelude.{ℕ, ◌≡◌, refl, true, false, some, [], ==_refl, arith}
use senlin.Prelude.Int.{negsuc, ◌-ℤ◌}
use senlin.Table.{lookup, lookup-insert}
use senlin.Db.Locks.Refinement.{lookup-acquire, lookup-release}
use senlin.Db.{ClusterLock, Db}
use senlin.Db.Locks.{
  Scope, cluster_scope, node_scope, acquired, cluster_lock_acquire, released, cluster_lock_release,
  stolen, cluster_lock_steal,
}

-- A row that no action holds and that is locked all the same.
abbrev pub stuck : ClusterLock
stuck = record { action_ids = []; semaphore = negsuc 1 }

released-stolen : (a : ℕ) → released (some (stolen a)) a node_scope ≡ (true, some stuck)
unfolding released stolen ◌-ℤ◌
released-stolen a = ground arith

released-stuck : (b : ℕ) (s : Scope) → released (some stuck) b s ≡ (false, some stuck)
unfolding released
released-stuck b cluster_scope = refl
released-stuck b node_scope = refl

acquired-stuck : (b : ℕ) (s : Scope) → acquired (some stuck) b s ≡ stuck
unfolding acquired
acquired-stuck b cluster_scope = refl
acquired-stuck b node_scope = refl

lookup-steal :
    (c a : ℕ) (db : Db) → lookup c (cluster_lock_steal c a db).1.cluster_locks ≡ some (stolen a)
unfolding cluster_lock_steal
lookup-steal c a db = rw (lookup-insert, ==_refl c)

-- A lock that was stolen and is then released at the scope of a node is stuck, and the release
-- reports success.
pub steal-release_stuck :
    (c a : ℕ) (db : Db)
    → ((cluster_lock_release c a node_scope (cluster_lock_steal c a db).1).0 ≡ true)
      × (lookup c
            (cluster_lock_release c a node_scope (cluster_lock_steal c a db).1).1.cluster_locks
          ≡ some stuck)
steal-release_stuck c a db = (
  (unfold cluster_lock_release in rw (lookup-steal c a db, released-stolen a)),
  rw (
    lookup-release c a c node_scope (cluster_lock_steal c a db).1,
    ==_refl c,
    lookup-steal c a db,
    released-stolen a,
  ),
)

-- A stuck lock stays: no attempt at either scope returns an owner or changes the row, and no
-- release succeeds or changes it.
pub stuck_stays :
    (c b : ℕ) (s : Scope) (db : Db)
    → lookup c db.cluster_locks ≡ some stuck
    → ((cluster_lock_acquire c b s db).0 ≡ [])
      × (lookup c (cluster_lock_acquire c b s db).1.cluster_locks ≡ some stuck)
      × ((cluster_lock_release c b s db).0 ≡ false)
      × (lookup c (cluster_lock_release c b s db).1.cluster_locks ≡ some stuck)
stuck_stays c b s db e = (
  (unfold cluster_lock_acquire in rw (e, acquired-stuck b s)),
  rw (lookup-acquire c b c s db, ==_refl c, e, acquired-stuck b s),
  (unfold cluster_lock_release in rw (e, released-stuck b s)),
  rw (lookup-release c b c s db, ==_refl c, e, released-stuck b s),
)
