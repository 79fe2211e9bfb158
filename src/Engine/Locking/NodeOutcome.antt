-- ===== src/Engine/Locking/NodeOutcome.antt =====
-- What an attempt to lock a node reports, and who holds the lock then; an attempt on a stuck lock
-- of a cluster.
use senlin.Prelude.{
  ℕ, ◌≡◌, refl, ◌∙◌, Bool, true, false, Option, none, some, ◌==◌, ==_refl, arith, Bool-cases, inl,
  inr,
}
use senlin.Table.{lookup, lookup-insert}
use senlin.Db.{Db, failed}
use senlin.Db.Cascade.{enough, action_mark_failed}
use senlin.Db.Cascade.Frame.{mark-SameLocks}
use senlin.Db.Cascade.Termination.{mark-ends}
use senlin.Db.Locks.{Scope, node_lock_acquire, node_lock_steal}
use senlin.Db.Locks.NodeLocks.{owns, node_lock_acquire_lem}
use senlin.Db.Locks.Stuck.{stuck, stuck_stays}
use senlin.Engine.Locking.{
  Asker, dead_owner, steal_node, force_node, acquire_node, force_cluster, acquire_cluster,
}

module _ (asker : Asker) (n a : ℕ) where
  -- The attempt returns, and reports whether the action owns the lock then.
  abbrev Outcome : Option (Bool × Db) → Type 0
  Outcome result =
      (r : Bool) × (db' : Db) × (result ≡ some (r, db')) × (owns (lookup n db'.node_locks) a ≡ r)

  steal-owns : (db : Db) → owns (lookup n (node_lock_steal n a db).1.node_locks) a ≡ true
  unfolding node_lock_steal
  steal-owns db = rw (lookup-insert, ==_refl n) (==_refl a)

  steal_node-Outcome :
      (owner : ℕ) (o : Option ℕ) (db : Db)
      → owns (lookup n db.node_locks) a ≡ false
      → Outcome (steal_node asker n a owner o db)
  unfolding steal_node action_mark_failed
  steal_node-Outcome owner none db out = (false, db, refl, out)
  steal_node-Outcome owner (some e) db out =
      let reason = some "Engine died when executing this action." in
      let thief = (node_lock_steal n a db).1 in
      let (db', ends, _) = mark-ends failed asker.now reason owner thief in
      let same = mark-SameLocks failed asker.now (enough thief) reason owner thief db' ends in
      (true, db', rw ends, rw same.0 (steal-owns db))

  force_node-Outcome :
      (forced : Bool) (owner : ℕ) (db : Db)
      → owns (lookup n db.node_locks) a ≡ false
      → Outcome (force_node asker n a forced owner db)
  unfolding force_node
  force_node-Outcome true owner db out =
      (true, (node_lock_steal n a db).1, (unfold node_lock_steal in rw (==_refl a)), steal-owns db)
  force_node-Outcome false owner db out =
      steal_node-Outcome owner (dead_owner asker db owner) db out

acquire-owns :
    (n a : ℕ) (db : Db)
    → owns (lookup n (node_lock_acquire n a db).1.node_locks) a
      ≡ (a == (node_lock_acquire n a db).0)
acquire-owns n a db =
    let (owner, row) = node_lock_acquire_lem n a n db in rw (row, owner, ==_refl n) (ground arith)

-- An attempt of an action to lock a node, forced or not, returns, and reports success exactly when
-- the action owns the lock then.
pub acquire_node_lem :
    (asker : Asker) (n a : ℕ) (forced : Bool) (db : Db)
    → (r : Bool) × (db' : Db) × (acquire_node asker n a forced db ≡ some (r, db'))
      × (owns (lookup n db'.node_locks) a ≡ r)
unfolding acquire_node
acquire_node_lem asker n a forced db =
    let (owner, locked) = node_lock_acquire n a db in
    let row = acquire-owns n a db in
    elim (Bool-cases (a == owner)) [
      | inl mine ↦ (true, locked, rw mine, row ∙ mine)
      | inr others ↦
          let k = force_node-Outcome asker n a forced owner locked (row ∙ others) in rw others k
    ]

-- On a cluster whose lock is stuck, an attempt that is not forced ends in the exception of reading
-- the first of no owners, at either scope and whichever action makes it.
pub acquire_cluster-stuck :
    (asker : Asker) (c a : ℕ) (s : Scope) (db : Db)
    → lookup c db.cluster_locks ≡ some stuck
    → acquire_cluster asker c a s false db ≡ none
unfolding acquire_cluster force_cluster
acquire_cluster-stuck asker c a s db h = rw ((stuck_stays c a s db h).0)
