-- ===== src/Engine/Locking/Outcome/Kept.antt =====
-- A lock that an action has stolen outlasts the clean-up of an engine that does not own the action.
use senlin.Prelude.{
  ℕ, ◌≡◌, refl, ◌∙◌, true, false, Option, none, some, List, [], ◌∷◌, contains, ◌==◌, arith,
  >>=-eq-some, Bool-cases, inl, inr,
}
use senlin.Table.{lookup}
use senlin.Db.{ClusterLock, Db, failed}
use senlin.Db.Locks.{stolen}
use senlin.Db.Cascade.{for_each, action_mark_failed}
use senlin.Db.Cascade.Frame.{mark-SameLocks}
use senlin.Db.Collect.{
  cons_row, collect_lock, collect_locks, owned_ids, collect_action, gc_by_engine,
}
use senlin.Db.Collect.Cleanup.{for_each-ends}

module _ (c a : ℕ) where
  collect_lock-stolen : (b : ℕ) → (b == a) ≡ false → collect_lock b (stolen a) ≡ some (stolen a)
  unfolding collect_lock stolen
  collect_lock-stolen b other = ground (arith, other)

  lookup-cons_row :
      (k : ℕ) (o : Option ClusterLock) (rest : List (ℕ × ClusterLock))
      → (k == c) ≡ false
      → lookup c (cons_row k o rest) ≡ lookup c rest
  unfolding lookup
  lookup-cons_row k none rest other = refl
  lookup-cons_row k (some lock) rest other = rw other

  -- The row is `lock`, the first of its key.
  lookup-cons_same :
      (k : ℕ) (o : Option ClusterLock) (rest : List (ℕ × ClusterLock))
      → (k == c) ≡ true
      → o ≡ some (stolen a)
      → lookup c (cons_row k o rest) ≡ some (stolen a)
  unfolding lookup
  lookup-cons_same k o rest same e = rw (e, same)

  collect_locks-stolen :
      (b : ℕ) (t : List (ℕ × ClusterLock))
      → (b == a) ≡ false
      → lookup c t ≡ some (stolen a)
      → lookup c (collect_locks b t) ≡ some (stolen a)
  unfolding lookup collect_locks
  collect_locks-stolen b [] other h = cc
  collect_locks-stolen b ((k, lock) ∷ t) other h = elim (Bool-cases (k == c)) [
    | inl same ↦
        let row : lock ≡ stolen a = ground (arith, same, h) in
        lookup-cons_same k (collect_lock b lock) (collect_locks b t) same
          (rw row (collect_lock-stolen b other))
    | inr differs ↦
        lookup-cons_row k (collect_lock b lock) (collect_locks b t) differs
        ∙ collect_locks-stolen b t other (rw differs at h)
  ]

  collect_action-stolen :
      (timestamp b : ℕ) (db db' : Db)
      → collect_action timestamp b db ≡ some db'
      → (b == a) ≡ false
      → lookup c db.cluster_locks ≡ some (stolen a)
      → lookup c db'.cluster_locks ≡ some (stolen a)
  unfolding collect_action action_mark_failed
  collect_action-stolen timestamp b db db' e other h =
      let same = mark-SameLocks failed timestamp _ (some "Engine failure") b _ db' e in
      rw (same.1) (collect_locks-stolen b db.cluster_locks other h)

  for_each-stolen :
      (timestamp : ℕ) (bs : List ℕ) (db db' : Db)
      → for_each (collect_action timestamp) bs db ≡ some db'
      → contains bs a ≡ false
      → lookup c db.cluster_locks ≡ some (stolen a)
      → lookup c db'.cluster_locks ≡ some (stolen a)
  unfolding for_each
  for_each-stolen timestamp [] db db' e out h = let k : db ≡ db' = cc in rw (← k) h
  for_each-stolen timestamp (b ∷ bs) db db' e out h =
      let (mid, first, rest) =
        >>=-eq-some (collect_action timestamp b db) (for_each (collect_action timestamp) bs) e in
      let other : (b == a) ≡ false = ground (arith, out) in
      for_each-stolen timestamp bs mid db' rest (ground (arith, out))
        (collect_action-stolen timestamp b db mid first other h)

  -- The clean-up of an engine that does not own the action returns, and keeps its lock.
  pub gc_by_engine-stolen :
      (engine timestamp : ℕ) (db : Db)
      → contains (owned_ids engine db.actions) a ≡ false
      → lookup c db.cluster_locks ≡ some (stolen a)
      → (db' : Db) × (gc_by_engine engine timestamp db ≡ some db')
        × (lookup c db'.cluster_locks ≡ some (stolen a))
  unfolding gc_by_engine
  gc_by_engine-stolen engine timestamp db out h =
      let (db', e) = for_each-ends timestamp (owned_ids engine db.actions) db in
      (db', e, for_each-stolen timestamp (owned_ids engine db.actions) db db' e out h)
