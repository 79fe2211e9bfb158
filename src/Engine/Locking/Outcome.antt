-- ===== src/Engine/Locking/Outcome.antt =====
-- What an attempt to lock reports, and who holds the lock then.
pub mod Kept
use senlin.Prelude.{
  ℕ, zero, suc, ◌+◌, ◌<◌, ◌≡◌, refl, sym, ◌∙◌, ap, Bool, true, false, not, ◌&&◌, Option, none, some,
  List, [], ◌∷◌, ◌++◌, contains, ◌==◌, ==_refl, arith, if◌then◌else◌, ◌>>=◌, >>=-eq-some,
  Bool-cases, inl, inr, length, length-append, Option-cases, subst,
}
use senlin.Table.{lookup, lookup-insert}
use senlin.Db.{Action, ClusterLock, Db}
use senlin.Db.Locks.{
  Scope, join, acquired, cluster_lock_acquire, stolen, cluster_lock_steal, is_node,
}
use senlin.Db.Locks.Refinement.{lookup-acquire}
use senlin.Db.Actions.{action_get}
use senlin.Db.Collect.{owned_ids, gc_by_engine}
use senlin.Engine.Locking.{
  Asker, is_other, is_engine_dead, dead_engine, dead_owner, steal_cluster, force_cluster,
  acquire_cluster,
}
use senlin.Engine.Locking.Outcome.Kept.{gc_by_engine-stolen}

-- The action is among the holders of the lock.
abbrev pub holds : Option ClusterLock → ℕ → Bool
holds none a = false
holds (some lock) a = contains lock.action_ids a

-- A lock that is there has a holder.
abbrev pub HasHolder : Option ClusterLock → Type 0
HasHolder none = Unit {0}
HasHolder (some lock) = 0 < length lock.action_ids

-- No engine but the one that asks owns the action.
abbrev pub IsOwn : Asker → ℕ → Db → Type 0
IsOwn asker a db = (e : ℕ) → contains (owned_ids e db.actions) a ≡ true → asker.engine ≡ some e

acquired-HasHolder :
    (o : Option ClusterLock) (a : ℕ) (s : Scope)
    → HasHolder o
    → 0 < length (acquired o a s).action_ids
unfolding acquired join
acquired-HasHolder none a s h = omega arith
acquired-HasHolder (some lock) a s h = ground (arith, h, length-append lock.action_ids (a ∷ []))

dead_engine-is_other :
    (asker : Asker) (db : Db) (o : Option ℕ) (e : ℕ)
    → dead_engine asker db o ≡ some e
    → is_other e asker.engine ≡ true
unfolding dead_engine
dead_engine-is_other asker db none e h = cc
dead_engine-is_other asker db (some owner) e h = ground (arith, h)

dead_owner-is_other :
    (asker : Asker) (db : Db) (o e : ℕ)
    → dead_owner asker db o ≡ some e
    → is_other e asker.engine ≡ true
unfolding dead_owner
dead_owner-is_other asker db o e h =
    let (act, _, d) =
      >>=-eq-some (action_get (some asker.project) o db) (λ act. dead_engine asker db act.owner)
        h in
    dead_engine-is_other asker db act.owner e d

module _ (asker : Asker) (c a : ℕ) where
  -- The action that asks is not one of the dead engine's.
  IsOwn-others :
      (db : Db) (e : ℕ)
      → IsOwn asker a db
      → is_other e asker.engine ≡ true
      → contains (owned_ids e db.actions) a ≡ false
  unfolding is_other
  IsOwn-others db e own other = elim (Bool-cases (contains (owned_ids e db.actions) a)) [
    | inr out ↦ out
    | inl there ↦ let k = own e there in absurd (ground (arith, k, other))
  ]

  lookup-steal : (db : Db) → lookup c (cluster_lock_steal c a db).1.cluster_locks ≡ some (stolen a)
  unfolding cluster_lock_steal
  lookup-steal db = rw (lookup-insert, ==_refl c)

  held_by_self : contains (stolen a).action_ids a ≡ true
  unfolding stolen
  held_by_self = rw (==_refl a)

  stolen_by_self : (db : Db) → contains (cluster_lock_steal c a db).0 a ≡ true
  unfolding cluster_lock_steal stolen
  stolen_by_self db = rw (==_refl a)

  -- The attempt returns, and reports whether the action holds the lock then.
  abbrev pub Outcome : Option (Bool × Db) → Type 0
  Outcome result =
      (r : Bool) × (db' : Db) × (result ≡ some (r, db'))
      × (holds (lookup c db'.cluster_locks) a ≡ r)

  steal_cluster-Outcome :
      (o : Option ℕ) (db : Db)
      → holds (lookup c db.cluster_locks) a ≡ false
      → IsOwn asker a db
      → ((e : ℕ) → o ≡ some e → is_other e asker.engine ≡ true)
      → Outcome (steal_cluster asker c a o db)
  unfolding steal_cluster
  steal_cluster-Outcome none db out own other = (false, db, refl, out)
  steal_cluster-Outcome (some e) db out own other =
      let thief = (cluster_lock_steal c a db).1 in
      let (db', ends, row) =
        gc_by_engine-stolen c a e asker.now thief
          (unfold cluster_lock_steal in IsOwn-others db e own (other e refl)) (lookup-steal db) in
      (true, db', rw (ends, stolen_by_self db), rw row (held_by_self))

  -- Steps 2 and 3 on a lock that others hold.
  force_cluster-Outcome :
      (forced : Bool) (owners : List ℕ) (db : Db)
      → 0 < length owners
      → holds (lookup c db.cluster_locks) a ≡ false
      → IsOwn asker a db
      → Outcome (force_cluster asker c a forced owners db)
  unfolding force_cluster
  force_cluster-Outcome true owners db some_owner out own = (
    true,
    (cluster_lock_steal c a db).1,
    rw (stolen_by_self db),
    rw (lookup-steal db) held_by_self,
  )
  force_cluster-Outcome false [] db some_owner out own = absurd (omega (arith, some_owner))
  force_cluster-Outcome false (o ∷ os) db some_owner out own =
      steal_cluster-Outcome (dead_owner asker db o) db out own (dead_owner-is_other asker db o)

acquire-holds :
    (c a : ℕ) (s : Scope) (db : Db)
    → holds (lookup c (cluster_lock_acquire c a s db).1.cluster_locks) a
      ≡ contains (cluster_lock_acquire c a s db).0 a
acquire-holds c a s db =
    rw (lookup-acquire c a c s db, ==_refl c) (unfold cluster_lock_acquire in refl)

-- An attempt of an action to lock a cluster, forced or not, returns, and reports success exactly
-- when the action is among the holders of the lock then. The lock, if it is there, has a holder,
-- and no engine but the one that asks owns the action.
pub acquire_cluster_lem :
    (asker : Asker) (c a : ℕ) (s : Scope) (forced : Bool) (db : Db)
    → HasHolder (lookup c db.cluster_locks)
    → IsOwn asker a db
    → (r : Bool) × (db' : Db) × (acquire_cluster asker c a s forced db ≡ some (r, db'))
      × (holds (lookup c db'.cluster_locks) a ≡ r)
unfolding acquire_cluster
acquire_cluster_lem asker c a s forced db h own =
    let (owners, locked) = cluster_lock_acquire c a s db in
    let row = acquire-holds c a s db in
    elim (Bool-cases (contains owners a)) [
      | inl mine ↦ (true, locked, rw mine, row ∙ mine)
      | inr others ↦
          let k =
            force_cluster-Outcome asker c a forced owners locked
              (unfold cluster_lock_acquire in acquired-HasHolder (lookup c db.cluster_locks) a s h)
              (row ∙ others) (unfold cluster_lock_acquire in own) in
          rw others k
    ]
