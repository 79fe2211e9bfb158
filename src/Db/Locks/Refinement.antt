-- ===== src/Db/Locks/Refinement.antt =====
-- The lock table implements the shared and exclusive lock of `Holding`.
use senlin.Prelude.{
  ℕ, ◌<◌, ◌≡◌, refl, true, false, Option, none, some, List, [], ◌∷◌, ◌++◌, contains, remove, length,
  length-append, ◌==◌, ==_refl, if◌then◌else◌, Bool-cases, inl, inr, arith,
}
use senlin.Prelude.Int.{ℤ, pos, negsuc, ◌+ℤ◌, ◌-ℤ◌}
use senlin.Table.{lookup, lookup-insert, lookup-delete}
use senlin.Db.{ClusterLock, Db}
use senlin.Db.Locks.{
  Scope, cluster_scope, node_scope, join, acquired, cluster_lock_acquire, release_cluster_lock,
  put_back, released, cluster_lock_release, cluster_lock_steal,
}
use senlin.Db.Locks.Holding.{
  Held, free, exclusive, shared, IsDistinct, Represents, lock, sharing, unlock, Matches,
  contains-snoc, snoc-IsDistinct, length-remove, remove-IsDistinct,
}

abbrev row : List ℕ → ℤ → ClusterLock
row ids semaphore = record { action_ids = ids; semaphore = semaphore }

join-exclusive :
    (b a : ℕ) (s : Scope) → join (row (b ∷ []) (negsuc 0)) a s ≡ row (b ∷ []) (negsuc 0)
unfolding join
join-exclusive b a cluster_scope = refl
join-exclusive b a node_scope = refl

join-shared :
    (holders : List ℕ) (a : ℕ)
    → 0 < length holders
    → join (row holders (pos (length holders))) a node_scope ≡ (
        if contains holders a
        then row holders (pos (length holders))
        else row (holders ++ a ∷ []) (pos (length (holders ++ a ∷ []))))
unfolding join ◌+ℤ◌
join-shared holders a h = ground (arith, length-append holders (a ∷ []))

-- An attempt, on the row.
acquired-Represents :
    (o : Option ClusterLock) (h : Held) (a : ℕ) (s : Scope)
    → Represents o h
    → Represents (some (acquired o a s)) (lock h a s).1
      × (contains (acquired o a s).action_ids a ≡ (lock h a s).0)
unfolding acquired lock
acquired-Represents o free a cluster_scope r = rw r (refl, ground arith)
acquired-Represents o free a node_scope r = rw r ((refl, omega arith, (refl, tt)), ground arith)
acquired-Represents o (exclusive b) a s r =
    rw (r, acquired, join-exclusive b a s) (refl, ground arith)
acquired-Represents o (shared holders) a cluster_scope (r, n, d) =
    rw (r, acquired) ((refl, n, d), refl)
acquired-Represents o (shared holders) a node_scope (r, n, d) =
    rw (r, acquired, join-shared holders a n)
      (elim (Bool-cases (contains holders a)) [
        | inl e ↦ rw e ((refl, n, d), e)
        | inr e ↦ rw e (
          (refl, omega (arith, length-append holders (a ∷ [])), snoc-IsDistinct holders a d e),
          ground (arith, contains-snoc holders a a),
        )
      ])

Represents-sharing :
    (holders : List ℕ)
    → IsDistinct holders
    → Represents
        (if length holders == 0 then none else some (row holders (pos (length holders))))
        (sharing holders)
unfolding sharing
Represents-sharing [] d = refl
Represents-sharing (x ∷ xs) d = (ground arith, omega arith, d)

release-shared :
    (holders : List ℕ) (a : ℕ) (s : Scope)
    → contains holders a ≡ true
    → release_cluster_lock (row holders (pos (length holders))) a s ≡ (
      true,
      (if length (remove holders a) == 0
          then none
          else some (row (remove holders a) (pos (length (remove holders a))))),
    )
unfolding release_cluster_lock ◌-ℤ◌
release-shared holders a cluster_scope h = ground (arith, length-remove holders a h)
release-shared holders a node_scope h = ground (arith, length-remove holders a h)

release-not_held :
    (lock : ClusterLock) (a : ℕ) (s : Scope)
    → contains lock.action_ids a ≡ false
    → release_cluster_lock lock a s ≡ (false, some lock)
unfolding release_cluster_lock
release-not_held lock a s h = ground arith

release-exclusive :
    (b a : ℕ)
    → release_cluster_lock (row (b ∷ []) (negsuc 0)) a cluster_scope
      ≡ (if b == a then (true, none) else (false, some (row (b ∷ []) (negsuc 0))))
unfolding release_cluster_lock
release-exclusive b a = ground arith

lookup-put_back :
    (c j : ℕ) (o : Option ClusterLock) (t : List (ℕ × ClusterLock))
    → lookup j (put_back c o t) ≡ (if c == j then o else lookup j t)
unfolding put_back
lookup-put_back c j none t = lookup-delete c j t
lookup-put_back c j (some l) t = lookup-insert c j l t

-- A release, on a row that is there and on one that may be missing.
release-Represents :
    (l : ClusterLock) (h : Held) (a : ℕ) (s : Scope)
    → Matches h s
    → Represents (some l) h
    → Represents (release_cluster_lock l a s).1 (unlock h a).1
      × ((release_cluster_lock l a s).0 ≡ (unlock h a).0)
release-Represents l free a s m r = cc
release-Represents l (exclusive b) a s m r =
    let same : l ≡ row (b ∷ []) (negsuc 0) = cc in
    rw (same, m, release-exclusive b a)
      (unfold unlock in
        elim (Bool-cases (b == a)) [ inl e ↦ rw e (refl, refl) | inr e ↦ rw e (refl, refl) ])
release-Represents l (shared holders) a s m (r, n, d) =
    let same : l ≡ row holders (pos (length holders)) = cc in
    elim (Bool-cases (contains holders a)) [
      | inl e ↦
          rw (same, release-shared holders a s e)
            (unfold unlock in
              rw e (Represents-sharing (remove holders a) (remove-IsDistinct holders a d), refl))
      | inr e ↦
          rw (same, release-not_held (row holders (pos (length holders))) a s e)
            (unfold unlock in rw e ((refl, n, d), refl))
    ]

pub lookup-acquire :
    (c a j : ℕ) (s : Scope) (db : Db)
    → lookup j (cluster_lock_acquire c a s db).1.cluster_locks ≡ (
        if c == j
        then some (acquired (lookup c db.cluster_locks) a s)
        else lookup j db.cluster_locks)
unfolding cluster_lock_acquire
lookup-acquire c a j s db =
    lookup-insert c j (acquired (lookup c db.cluster_locks) a s) db.cluster_locks

pub lookup-release :
    (c a j : ℕ) (s : Scope) (db : Db)
    → lookup j (cluster_lock_release c a s db).1.cluster_locks
      ≡ (if c == j then (released (lookup c db.cluster_locks) a s).1 else lookup j db.cluster_locks)
unfolding cluster_lock_release
lookup-release c a j s db =
    lookup-put_back c j (released (lookup c db.cluster_locks) a s).1 db.cluster_locks

released-Represents :
    (o : Option ClusterLock) (h : Held) (a : ℕ) (s : Scope)
    → Matches h s
    → Represents o h
    → Represents (released o a s).1 (unlock h a).1 × ((released o a s).0 ≡ (unlock h a).0)
unfolding released
released-Represents none free a s m r = unfold unlock in (refl, refl)
released-Represents none (exclusive b) a s m r = cc
released-Represents none (shared holders) a s m (r, n, d) = cc
released-Represents (some l) h a s m r = release-Represents l h a s m r

module _ (c a : ℕ) (s : Scope) (db : Db) (h : Held)
    (now : Represents (lookup c db.cluster_locks) h) where
  -- An attempt to lock a cluster, at either scope, leaves its row in the state of the
  -- specification, and the action is among the returned owners exactly when it holds the lock then.
  -- The rows of other clusters stay.
  pub cluster_lock_acquire-Represents :
      (j : ℕ)
      → Represents (lookup c (cluster_lock_acquire c a s db).1.cluster_locks) (lock h a s).1
        × (contains (cluster_lock_acquire c a s db).0 a ≡ (lock h a s).0)
        × (lookup j (cluster_lock_acquire c a s db).1.cluster_locks ≡ (
            if c == j
            then lookup c (cluster_lock_acquire c a s db).1.cluster_locks
            else lookup j db.cluster_locks))
  cluster_lock_acquire-Represents j =
      let (r, held) = acquired-Represents (lookup c db.cluster_locks) h a s now in
      (
        rw (lookup-acquire c a c s db, ==_refl c) r,
        (unfold cluster_lock_acquire in held),
        rw (lookup-acquire c a j s db, lookup-acquire c a c s db, ==_refl c),
      )

  -- A release, of an exclusively held lock at the scope of the cluster, leaves its row in the state
  -- of the specification and tells whether the action held the lock. The rows of other clusters
  -- stay.
  pub cluster_lock_release-Represents :
      (j : ℕ)
      → Matches h s
      → Represents (lookup c (cluster_lock_release c a s db).1.cluster_locks) (unlock h a).1
        × ((cluster_lock_release c a s db).0 ≡ (unlock h a).0)
        × (lookup j (cluster_lock_release c a s db).1.cluster_locks ≡ (
            if c == j
            then lookup c (cluster_lock_release c a s db).1.cluster_locks
            else lookup j db.cluster_locks))
  cluster_lock_release-Represents j m =
      let (r, held) = released-Represents (lookup c db.cluster_locks) h a s m now in
      (
        rw (lookup-release c a c s db, ==_refl c) r,
        (unfold cluster_lock_release in held),
        rw (lookup-release c a j s db, lookup-release c a c s db, ==_refl c),
      )

-- A steal leaves the cluster to the thief alone, whatever the row was, and the rows of the other
-- clusters as they were.
cluster_lock_steal-Represents :
    (c a j : ℕ) (db : Db)
    → Represents (lookup c (cluster_lock_steal c a db).1.cluster_locks) (exclusive a)
      × (contains (cluster_lock_steal c a db).0 a ≡ true)
      × (lookup j (cluster_lock_steal c a db).1.cluster_locks ≡ (
          if c == j
          then lookup c (cluster_lock_steal c a db).1.cluster_locks
          else lookup j db.cluster_locks))
unfolding cluster_lock_steal
cluster_lock_steal-Represents c a j db = simp (lookup-insert, ==_refl) (refl, refl, refl)
