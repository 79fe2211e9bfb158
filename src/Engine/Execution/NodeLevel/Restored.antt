-- ===== src/Engine/Execution/NodeLevel/Restored.antt =====
-- A node action leaves the lock of its cluster as it found it.
use senlin.Prelude.{
  ℕ, ◌<◌, length, ◌≡◌, refl, ap, ◌∙◌, Bool, true, false, Option, some, List, [], ◌∷◌, ◌++◌,
  contains, remove, ==_refl, arith, ◌⊎◌, inl, inr, if◌then◌else◌,
}
use senlin.Table.{lookup}
use senlin.Db.{ClusterLock, Db}
use senlin.Db.Locks.{node_scope, cluster_lock_acquire, cluster_lock_release, node_lock_release}
use senlin.Db.Locks.Holding.{
  Held, free, exclusive, shared, Represents, Matches, lock, unlock, sharing, contains-snoc,
}
use senlin.Db.Locks.Refinement.{cluster_lock_acquire-Represents, cluster_lock_release-Represents}
use senlin.Engine.Locking.{Asker}
use senlin.Engine.Locking.NodeOutcome.{acquire_node_lem}
use senlin.Engine.Results.{res_ok, res_error, res_retry, res_cancel, res_timeout}
use senlin.Engine.Waiting.{Ended, returned, raised}
use senlin.Engine.Execution.{
  Checked, check_ok, check_error, check_raised, as_result, check_after, run_method, release_cluster,
  release_node, check_guarded, node_locked, after_check, node_execute,
}
use senlin.Engine.Execution.ClusterLevel.{acquire_cluster-gets}
use senlin.Engine.Execution.NodeLevel.{node_lock_release-clusters, acquire_node-clusters}

-- A lock that a node action may join.
abbrev pub IsOpen : Held → ℕ → Type 0
IsOpen free a = Unit
IsOpen (exclusive b) a = ⊥
IsOpen (shared holders) a = contains holders a ≡ false

-- The code leaves the lock of the cluster as it finds it.
abbrev pub Keeps {ℓ} : {A : Type ℓ} → ℕ → (Db → A × Db) → Type 0
Keeps c run = (db : Db) → lookup c (run db).1.cluster_locks ≡ lookup c db.cluster_locks

remove-snoc : (xs : List ℕ) (a : ℕ) → contains xs a ≡ false → remove (xs ++ a ∷ []) a ≡ xs
remove-snoc [] a h = rw (==_refl a) refl
remove-snoc (x ∷ xs) a h = ground (arith, h, remove-snoc xs a (ground (arith, h)))

sharing-nonempty : (xs : List ℕ) → 0 < length xs → sharing xs ≡ shared xs
unfolding sharing
sharing-nonempty [] h = absurd (omega (arith, h))
sharing-nonempty (x ∷ xs) h = refl

-- To join such a lock and to leave it again changes nothing.
unlock-lock :
    (h : Held) (a : ℕ) (row : Option ClusterLock)
    → IsOpen h a
    → Represents row h
    → ((lock h a node_scope).0 ≡ true)
      × Matches (lock h a node_scope).1 node_scope
      × ((unlock (lock h a node_scope).1 a).1 ≡ h)
unfolding lock unlock sharing
unlock-lock free a row open_ r = (refl, tt, rw (==_refl a) refl)
unlock-lock (exclusive b) a row open_ r = absurd open_
unlock-lock (shared holders) a row open_ r = (
  refl,
  tt,
  rw (open_, contains-snoc holders a a, open_, ==_refl a, remove-snoc holders a open_)
      (sharing-nonempty holders r.1),
)

module _ (asker : Asker) (n a c : ℕ) (h : Held) (open_ : IsOpen h a) where
  abbrev IsJoined : Db → Type 0
  IsJoined db = Represents (lookup c db.cluster_locks) (lock h a node_scope).1

  release-IsRestored :
      (db : Db)
      → (row : Option ClusterLock) → Represents row h
      → IsJoined db
      → Represents (lookup c (cluster_lock_release c a node_scope db).1.cluster_locks) h
  release-IsRestored db row before joined =
      let (_, matches, same) = unlock-lock h a row open_ before in
      rw (← same)
        (cluster_lock_release-Represents c a node_scope db (lock h a node_scope).1 joined c
          matches).0

  module _ (row : Option ClusterLock) (before : Represents row h) (after : Db → Checked × Db)
      (method : Option (Db → Ended × Db)) (keeps_after : Keeps c after)
      (keeps_method : Keeps c (run_method method)) where
    -- The lock while the node action has it, and after it is over.
    abbrev Restores : Option (Ended × Db) → Type 0
    Restores result =
        (ended : Ended) × (db' : Db) × (result ≡ some (ended, db'))
        × Represents (lookup c db'.cluster_locks) h

    as_result-keeps : (o : Checked × Db) → (as_result o).1.cluster_locks ≡ o.1.cluster_locks
    unfolding as_result
    as_result-keeps (check_ok, db) = refl
    as_result-keeps (check_error, db) = refl
    as_result-keeps (check_raised, db) = refl

    check_guarded-keeps :
        (ended : Ended) (db : Db)
        → lookup c (check_guarded (some c) after (ended, db)).1.cluster_locks
          ≡ lookup c db.cluster_locks
    unfolding check_guarded check_after
    check_guarded-keeps (returned res_ok) db =
        ap (lookup c) (as_result-keeps (after db)) ∙ keeps_after db
    check_guarded-keeps (returned res_error) db = refl
    check_guarded-keeps (returned res_retry) db = refl
    check_guarded-keeps (returned res_cancel) db = refl
    check_guarded-keeps (returned res_timeout) db = refl
    check_guarded-keeps raised db = refl

    release_node-IsRestored :
        (ended : Ended) (db : Db)
        → IsJoined db
        → Represents (lookup c (release_node n a (some c) (ended, db)).1.cluster_locks) h
    unfolding release_node release_cluster
    release_node-IsRestored ended db joined =
        let free_node = (node_lock_release n a db).1 in
        release-IsRestored free_node row before (rw (node_lock_release-clusters n a db) joined)

    try_keeps :
        (got : Bool) (db : Db)
        → IsJoined db
        → IsJoined
            (if got
              then check_guarded (some c) after (run_method method db)
              else (returned res_retry, db)).1
    try_keeps true db joined =
        let ran = run_method method db in
        rw (check_guarded-keeps ran.0 ran.1 ∙ keeps_method db) joined
    try_keeps false db joined = joined

    node_locked-Restores :
        (db : Db) → IsJoined db → Restores (node_locked asker n a (some c) after method db)
    unfolding node_locked
    node_locked-Restores db joined =
        let (got, locked, e, _) = acquire_node_lem asker n a false db in
        let still : IsJoined locked = rw (acquire_node-clusters n a asker db got locked e) joined in
        let ran : Ended × Db =
          if got
          then check_guarded (some c) after (run_method method locked)
          else (returned res_retry, locked) in
        (
          (release_node n a (some c) ran).0,
          (release_node n a (some c) ran).1,
          rw e refl,
          release_node-IsRestored ran.0 ran.1 (try_keeps got locked still),
        )

    after_check-Restores :
        (chk : Checked) (db : Db)
        → IsJoined db
        → Restores (after_check asker n a c after method (chk, db))
          ⊎ ((chk ≡ check_raised)
              × (after_check asker n a c after method (chk, db) ≡ some (raised, db))
              × IsJoined db)
    unfolding after_check release_cluster
    after_check-Restores check_ok db joined = inl (node_locked-Restores db joined)
    after_check-Restores check_error db joined = inl (
      returned res_error,
      (cluster_lock_release c a node_scope db).1,
      refl,
      release-IsRestored db row before joined,
    )
    after_check-Restores check_raised db joined = inr (refl, refl, joined)

-- A node action that a user asks for, on a node of a cluster whose lock it may join and does not
-- hold, by checks and code that leave the row of that lock alone, ends by a result or an exception
-- with the lock in the state that it found, save in one case: an exception of the policy check
-- before the code leaves the lock joined.
pub node_execute-Represents :
    (asker : Asker) (n a c : ℕ) (h : Held) (before after : Db → Checked × Db)
    (method : Option (Db → Ended × Db)) (db : Db)
    → IsOpen h a
    → Represents (lookup c db.cluster_locks) h
    → Keeps c before
    → Keeps c after
    → Keeps c (run_method method)
    → (ended : Ended) × (db' : Db) × (node_execute asker n a (some c) before after method db
        ≡ some (ended, db'))
      × (Represents (lookup c db'.cluster_locks) h
          ⊎ ((ended ≡ raised)
              × ((before (cluster_lock_acquire c a node_scope db).1).0 ≡ check_raised)
              × Represents (lookup c db'.cluster_locks) (lock h a node_scope).1))
unfolding node_execute
node_execute-Represents asker n a c h before after method db open_ row keeps_before keeps_after
      keeps_method =
    let (there, _, _) = unlock-lock h a (lookup c db.cluster_locks) open_ row in
    let (held, owned, _) = cluster_lock_acquire-Represents c a node_scope db h row c in
    let locked = (cluster_lock_acquire c a node_scope db).1 in
    let got = acquire_cluster-gets asker c a node_scope false db (owned ∙ there) in
    let (chk, db1) = before locked in
    let joined : IsJoined asker n a c h open_ db1 = rw (keeps_before locked) held in
    elim (after_check-Restores asker n a c h open_ (lookup c db.cluster_locks) row after method
      keeps_after keeps_method chk db1 joined) [
        | inl (ended, db', e, restored) ↦ (ended, db', rw (got, e) refl, inl restored)
        | inr (why, e, still) ↦ (raised, db1, rw (got, e) refl, inr (refl, why, still))
      ]
