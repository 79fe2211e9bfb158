-- ===== src/Examples/Locks.antt =====
-- Attempts on the locks of the small database.
use senlin.Prelude.{◌≡◌, refl, [], ◌∷◌, contains, ◌==◌, if◌then◌else◌, arith}
use senlin.Table.{lookup}
use senlin.Db.Locks.{node_scope, cluster_lock_acquire, cluster_lock_release}
use senlin.Db.Locks.Holding.{shared, Represents, lock, unlock}
use senlin.Db.Locks.Refinement.{cluster_lock_acquire-Represents, cluster_lock_release-Represents}
use senlin.Examples.{db}

now : Represents (lookup 10 db.cluster_locks) (shared (2 ∷ 3 ∷ []))
unfolding lookup
now = (refl, omega arith, (refl, (refl, tt)))

cluster_lock_acquire-Represents_example :
    Represents
      (lookup 10 (cluster_lock_acquire 10 5 node_scope db).1.cluster_locks)
      (lock (shared (2 ∷ 3 ∷ [])) 5 node_scope).1
    × (contains (cluster_lock_acquire 10 5 node_scope db).0 5
        ≡ (lock (shared (2 ∷ 3 ∷ [])) 5 node_scope).0)
    × (lookup 11 (cluster_lock_acquire 10 5 node_scope db).1.cluster_locks ≡ (
        if 10 == 11
        then lookup 10 (cluster_lock_acquire 10 5 node_scope db).1.cluster_locks
        else lookup 11 db.cluster_locks))
cluster_lock_acquire-Represents_example =
    cluster_lock_acquire-Represents 10 5 node_scope db (shared (2 ∷ 3 ∷ [])) now 11

cluster_lock_release-Represents_example :
    Represents
      (lookup 10 (cluster_lock_release 10 2 node_scope db).1.cluster_locks)
      (unlock (shared (2 ∷ 3 ∷ [])) 2).1
    × ((cluster_lock_release 10 2 node_scope db).0 ≡ (unlock (shared (2 ∷ 3 ∷ [])) 2).0)
    × (lookup 11 (cluster_lock_release 10 2 node_scope db).1.cluster_locks ≡ (
        if 10 == 11
        then lookup 10 (cluster_lock_release 10 2 node_scope db).1.cluster_locks
        else lookup 11 db.cluster_locks))
cluster_lock_release-Represents_example =
    cluster_lock_release-Represents 10 2 node_scope db (shared (2 ∷ 3 ∷ [])) now 11 tt
