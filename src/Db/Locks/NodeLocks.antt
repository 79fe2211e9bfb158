-- ===== src/Db/Locks/NodeLocks.antt =====
-- A lock on a node belongs to one action at a time.
use senlin.Prelude.{ℕ, ◌≡◌, refl, Bool, false, Option, none, some, ◌==◌, if◌then◌else◌, arith, ap}
use senlin.Table.{lookup, lookup-insert, lookup-delete}
use senlin.Db.{Db}
use senlin.Db.Locks.{node_lock_acquire, node_lock_release}

-- The owner after an attempt: the one before, or the action where there was none.
abbrev pub keeper : Option ℕ → ℕ → ℕ
keeper none a = a
keeper (some owner) a = owner

-- What a release by the action leaves.
abbrev pub unless : Option ℕ → ℕ → Option ℕ
unless none a = none
unless (some owner) a = if owner == a then none else some owner

abbrev pub owns : Option ℕ → ℕ → Bool
owns none a = false
owns (some owner) a = owner == a

module _ (n a j : ℕ) (db : Db) where
  acquire-row :
      (o : Option ℕ)
      → lookup n db.node_locks ≡ o
      → ((node_lock_acquire n a db).0 ≡ keeper o a)
        × (lookup j (node_lock_acquire n a db).1.node_locks
            ≡ (if n == j then some (keeper o a) else lookup j db.node_locks))
  unfolding node_lock_acquire
  acquire-row none e = ground (arith, lookup-insert n j a db.node_locks)
  acquire-row (some owner) e = ground (arith, ap (λ k. lookup k db.node_locks))

  -- An attempt to lock a node returns the owner of its lock, which is the action if the lock was
  -- free and the old owner if not, and leaves it with that owner. The locks of other nodes stay.
  pub node_lock_acquire_lem :
      ((node_lock_acquire n a db).0 ≡ keeper (lookup n db.node_locks) a)
      × (lookup j (node_lock_acquire n a db).1.node_locks
          ≡ (if n == j then some (keeper (lookup n db.node_locks) a) else lookup j db.node_locks))
  node_lock_acquire_lem = acquire-row (lookup n db.node_locks) refl

  release-row :
      (o : Option ℕ)
      → lookup n db.node_locks ≡ o
      → ((node_lock_release n a db).0 ≡ owns o a)
        × (lookup j (node_lock_release n a db).1.node_locks
            ≡ (if n == j then unless o a else lookup j db.node_locks))
  unfolding node_lock_release
  release-row none e = ground (arith, ap (λ k. lookup k db.node_locks))
  release-row (some owner) e =
      ground (arith, lookup-delete n j db.node_locks, ap (λ k. lookup k db.node_locks))

  -- A release of the lock of a node succeeds exactly for its owner and frees it; else it changes
  -- nothing. The locks of other nodes stay.
  pub node_lock_release_lem :
      ((node_lock_release n a db).0 ≡ owns (lookup n db.node_locks) a)
      × (lookup j (node_lock_release n a db).1.node_locks
          ≡ (if n == j then unless (lookup n db.node_locks) a else lookup j db.node_locks))
  node_lock_release_lem = release-row (lookup n db.node_locks) refl
