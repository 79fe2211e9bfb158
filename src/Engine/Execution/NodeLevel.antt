-- ===== src/Engine/Execution/NodeLevel.antt =====
-- A node action leaves no lock on its node behind, and its locking of the node no trace on
-- clusters.
pub mod Restored
use senlin.Prelude.{
  ℕ, ◌<◌, length, ◌≡◌, refl, sym, ap, ◌∙◌, Bool, true, false, Option, none, some, List, [], ◌∷◌,
  ◌++◌, contains, remove, ◌==◌, ==_refl, arith, >>=-eq-some, Bool-cases, ◌⊎◌, inl, inr,
  if◌then◌else◌,
}
use senlin.Table.{lookup}
use senlin.Db.{ClusterLock, Db, failed}
use senlin.Db.Cascade.{action_mark_failed}
use senlin.Db.Cascade.Frame.{mark-SameLocks}
use senlin.Db.Locks.{
  node_scope, cluster_lock_acquire, cluster_lock_release, node_lock_acquire, node_lock_release,
  node_lock_steal,
}
use senlin.Db.Locks.Holding.{
  Held, free, exclusive, shared, Represents, Matches, lock, unlock, sharing, contains-snoc,
}
use senlin.Db.Locks.NodeLocks.{owns, unless, node_lock_release_lem}
use senlin.Db.Locks.Refinement.{cluster_lock_acquire-Represents, cluster_lock_release-Represents}
use senlin.Engine.Locking.{Asker, steal_node, force_node, acquire_node}
use senlin.Engine.Locking.NodeOutcome.{acquire_node_lem}
use senlin.Engine.Results.{res_ok, res_error, res_retry, res_cancel, res_timeout}
use senlin.Engine.Waiting.{Ended, returned, raised}
use senlin.Engine.Execution.{
  Checked, check_ok, check_error, check_raised, as_result, check_after, run_method, release_cluster,
  release_node, check_guarded, node_locked, after_check, node_execute,
}
use senlin.Engine.Execution.ClusterLevel.{acquire_cluster-gets}

unless-owns : (o : Option ℕ) (a : ℕ) → owns (unless o a) a ≡ false
unless-owns none a = refl
unless-owns (some owner) a = ground arith

module _ (n a : ℕ) where
  release_node-owns :
      (guard : Option ℕ) (result : Ended × Db)
      → owns (lookup n (release_node n a guard result).1.node_locks) a ≡ false
  unfolding release_node release_cluster cluster_lock_release
  release_node-owns none (ended, db) =
      rw ((node_lock_release_lem n a n db).1, ==_refl n) (unless-owns (lookup n db.node_locks) a)
  release_node-owns (some c) (ended, db) =
      rw ((node_lock_release_lem n a n db).1, ==_refl n) (unless-owns (lookup n db.node_locks) a)

-- The code of a node action, with the attempt to lock the node before it and the release after it,
-- ends by a result or an exception, and leaves the node unlocked by the action in each
-- case, whatever the code and the check after it do to the database.
pub node_locked-owns :
    (asker : Asker) (n a : ℕ) (guard : Option ℕ) (after : Db → Checked × Db)
    (method : Option (Db → Ended × Db)) (db : Db)
    → (ended : Ended) × (db' : Db) × (node_locked asker n a guard after method db
        ≡ some (ended, db'))
      × (owns (lookup n db'.node_locks) a ≡ false)
unfolding node_locked
node_locked-owns asker n a guard after method db =
    let (got, locked, e, _) = acquire_node_lem asker n a false db in
    let ran : Ended × Db =
      if got
      then check_guarded guard after (run_method method locked)
      else (returned res_retry, locked) in
    (
      (release_node n a guard ran).0,
      (release_node n a guard ran).1,
      rw e refl,
      release_node-owns n a guard ran,
    )

-- Locks on nodes leave the locks on clusters alone.
module _ (n a : ℕ) where
  node_lock_acquire-clusters :
      (db : Db) → (node_lock_acquire n a db).1.cluster_locks ≡ db.cluster_locks
  unfolding node_lock_acquire
  node_lock_acquire-clusters db = by_row (lookup n db.node_locks) refl
    where
      by_row :
          (o : Option ℕ)
          → lookup n db.node_locks ≡ o
          → (node_lock_acquire n a db).1.cluster_locks ≡ db.cluster_locks
      by_row none e = rw (node_lock_acquire, e) refl
      by_row (some owner) e = rw (node_lock_acquire, e) refl

  pub node_lock_release-clusters :
      (db : Db) → (node_lock_release n a db).1.cluster_locks ≡ db.cluster_locks
  unfolding node_lock_release
  node_lock_release-clusters db = by_row (lookup n db.node_locks) refl
    where
      by_row :
          (o : Option ℕ)
          → lookup n db.node_locks ≡ o
          → (node_lock_release n a db).1.cluster_locks ≡ db.cluster_locks
      by_row none e = rw (node_lock_release, e) refl
      by_row (some owner) e = elim (Bool-cases (owner == a)) [
        | inl mine ↦ rw (node_lock_release, e, mine) refl
        | inr others ↦ rw (node_lock_release, e, others) refl
      ]

  steal_node-clusters :
      (asker : Asker) (owner : ℕ) (o : Option ℕ) (db : Db) (r : Bool) (db' : Db)
      → steal_node asker n a owner o db ≡ some (r, db')
      → db'.cluster_locks ≡ db.cluster_locks
  unfolding steal_node action_mark_failed node_lock_steal
  steal_node-clusters asker owner none db r db' e =
      let same : db ≡ db' = ground (arith, e) in ap (λ d. d.cluster_locks) (sym same)
  steal_node-clusters asker owner (some engine) db r db' e =
      let (marked, e0, e1) = >>=-eq-some _ _ e in
      let same : marked ≡ db' = ground (arith, e1) in
      ap (λ d. d.cluster_locks) (sym same)
      ∙ (mark-SameLocks failed asker.now _ _ owner _ marked e0).1

  pub acquire_node-clusters :
      (asker : Asker) (db : Db) (r : Bool) (db' : Db)
      → acquire_node asker n a false db ≡ some (r, db')
      → db'.cluster_locks ≡ db.cluster_locks
  unfolding acquire_node force_node
  acquire_node-clusters asker db r db' e = elim (Bool-cases (a == (node_lock_acquire n a db).0)) [
    | inl mine ↦
        let same : (node_lock_acquire n a db).1 ≡ db' = ground (arith, mine, e) in
        ap (λ d. d.cluster_locks) (sym same) ∙ node_lock_acquire-clusters db
    | inr others ↦
        steal_node-clusters asker (node_lock_acquire n a db).0 _ (node_lock_acquire n a db).1 r db'
          (rw others at e)
        ∙ node_lock_acquire-clusters db
  ]
