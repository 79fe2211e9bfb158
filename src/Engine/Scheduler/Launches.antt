-- ===== src/Engine/Scheduler/Launches.antt =====
-- The loop of an engine ends with no action left that it could take, in batches of the configured
-- size.
use senlin.Prelude.{
  ℕ, zero, suc, ◌<◌, ◌≡◌, refl, ap, ◌⊎◌, inl, inr, true, false, ◌&&◌, none, some, List, [], ◌∷◌,
  ◌++◌, ltb, ◌==◌, contains, length, get_elem?, Bool-cases, arith,
}
use senlin.Table.{insert}
use senlin.Db.{Action, Db, is_ready}
use senlin.Db.Actions.{start, is_free, candidates, action_acquire_random_ready}
use senlin.Db.Locks.Holding.{IsDistinct}
use senlin.Engine.Scheduler.{
  Event, launch_batched, launch_other, pause, Batching, is_batched, launch_one,
}

abbrev pub keys : List (ℕ × Action) → List ℕ
keys [] = []
keys ((a, act) ∷ t) = a ∷ keys t

-- No two rows of the table have the same key.
abbrev pub IsKeyed : List (ℕ × Action) → Type 0
IsKeyed t = IsDistinct (keys t)

candidates-keys :
    (t : List (ℕ × Action)) (i a : ℕ) (act : Action)
    → get_elem? (candidates t) i ≡ some (a, act)
    → contains (keys t) a ≡ true
unfolding candidates
candidates-keys [] i a act h = cc
candidates-keys ((b, w) ∷ t) i a act h = elim (Bool-cases (is_ready w.status && is_free w.owner)) [
  | inl free_ ↦ in_row (λ k. candidates-keys t k a act) i (rw free_ at h)
  | inr other ↦ ground (arith, candidates-keys t i a act (rw other at h))
]
  where
    in_row :
        ((k : ℕ) → get_elem? (candidates t) k ≡ some (a, act) → contains (keys t) a ≡ true)
        → (i : ℕ) → get_elem? ((b, w) ∷ candidates t) i ≡ some (a, act)
        → contains (keys ((b, w) ∷ t)) a ≡ true
    in_row ih zero h = ground (arith, h)
    in_row ih (suc i) h = ground (arith, ih i h)

pub insert-keys :
    (t : List (ℕ × Action)) (a : ℕ) (v : Action)
    → contains (keys t) a ≡ true
    → keys (insert a v t) ≡ keys t
unfolding insert
insert-keys [] a v h = cc
insert-keys ((b, w) ∷ t) a v h = elim (Bool-cases (b == a)) [
  | inl same ↦ rw same (ap (λ k. k ∷ keys t) (ground (arith, same)))
  | inr other ↦ rw other (ap (◌∷◌ b) (insert-keys t a v (rw other at h)))
]

module _ (engine timestamp : ℕ) where
  -- An acquisition takes one row from those that can be acquired.
  candidates-start :
      (t : List (ℕ × Action)) (i a : ℕ) (act : Action)
      → IsKeyed t
      → get_elem? (candidates t) i ≡ some (a, act)
      → suc (length (candidates (insert a (start engine timestamp act) t))) ≡ length (candidates t)
  unfolding candidates insert start is_ready
  candidates-start [] i a act keyed h = cc
  candidates-start ((b, w) ∷ t) i a act keyed h =
      elim (Bool-cases (is_ready w.status && is_free w.owner)) [
        | inl free_ ↦ in_row (λ k. candidates-start t k a act keyed.1) i free_ (rw free_ at h)
        | inr other ↦
            let k : get_elem? (candidates t) i ≡ some (a, act) = rw other at h in
            let apart : (b == a) ≡ false = differs i k in
            rw (apart, other) (candidates-start t i a act keyed.1 k)
      ]
    where
      differs : (i : ℕ) → get_elem? (candidates t) i ≡ some (a, act) → (b == a) ≡ false
      differs i k = ground (arith, candidates-keys t i a act k, keyed.0)

      in_row :
          ((k : ℕ)
            → get_elem? (candidates t) k ≡ some (a, act)
            → suc (length (candidates (insert a (start engine timestamp act) t)))
              ≡ length (candidates t))
          → (i : ℕ) → (is_ready w.status && is_free w.owner) ≡ true
          → get_elem? ((b, w) ∷ candidates t) i ≡ some (a, act)
          → suc (length (candidates (insert a (start engine timestamp act) ((b, w) ∷ t))))
            ≡ length (candidates ((b, w) ∷ t))
      in_row ih zero free_ h =
          let same : (b == a) ≡ true = ground (arith, h) in rw (same, free_) refl
      in_row ih (suc i) free_ h = let apart = differs i h in rw (apart, free_) (ap suc (ih i h))

-- Any database picks a row of a query that has rows.
abbrev pub IsChoice : (List (ℕ × Action) → ℕ) → Type 0
IsChoice choose = (rows : List (ℕ × Action)) → 0 < length rows → choose rows < length rows

get_elem?-returns :
    (rows : List (ℕ × Action)) (i : ℕ)
    → i < length rows
    → (row : ℕ × Action) × (get_elem? rows i ≡ some row)
get_elem?-returns [] i h = absurd (omega (arith, h))
get_elem?-returns (x ∷ rows) zero h = (x, refl)
get_elem?-returns (x ∷ rows) (suc i) h = get_elem?-returns rows i (omega (arith, h))

module _ (choose : List (ℕ × Action) → ℕ) (chooses : IsChoice choose) (engine timestamp : ℕ)
    (db : Db) where
  -- An attempt gets one of the rows, which is then none of them any more, or there are none.
  abbrev pub Gets : Type 0
  Gets =
      ((candidates db.actions ≡ [])
        × (action_acquire_random_ready choose engine timestamp db ≡ (none, db)))
      ⊎ ((a : ℕ) × (act : Action) × (db' : Db) × (action_acquire_random_ready choose engine
              timestamp db
            ≡ (some (a, act), db'))
          × (suc (length (candidates db'.actions)) ≡ length (candidates db.actions))
          × IsKeyed db'.actions)

  pub action_acquire_random_ready-Gets : IsKeyed db.actions → Gets
  unfolding action_acquire_random_ready
  action_acquire_random_ready-Gets keyed = by_rows (candidates db.actions) refl
    where
      by_rows : (rows : List (ℕ × Action)) → candidates db.actions ≡ rows → Gets
      by_rows [] e = inl (e, rw (action_acquire_random_ready, e) refl)
      by_rows (x ∷ rows) e =
          let (row, k) =
            get_elem?-returns (x ∷ rows) (choose (x ∷ rows)) (chooses (x ∷ rows) (omega arith)) in
          let found : get_elem? (candidates db.actions) (choose (candidates db.actions))
              ≡ some row =
            rw e k in
          inr (
            row.0,
            start engine timestamp row.1,
            record db { actions = insert row.0 (start engine timestamp row.1) db.actions },
            rw (action_acquire_random_ready, found) refl,
            candidates-start engine timestamp db.actions _ row.0 row.1 keyed found,
            rw
                (insert-keys db.actions row.0 (start engine timestamp row.1)
                  (candidates-keys db.actions _ row.0 row.1 found))
                keyed,
          )

-- The actions that the events launch.
unfoldable pub launches : List Event → ℕ
launches [] = 0
launches (launch_batched a ∷ t) = suc (launches t)
launches (launch_other a ∷ t) = suc (launches t)
launches (pause ∷ t) = launches t

-- With `n` of them launched since the last sleep, no more batched actions than the size of a batch
-- are launched without one.
abbrev pub IsBatched : ℕ → ℕ → List Event → Type 0
IsBatched size n [] = Unit
IsBatched size n (launch_batched a ∷ t) = (n < size) × IsBatched size (suc n) t
IsBatched size n (launch_other a ∷ t) = IsBatched size n t
IsBatched size n (pause ∷ t) = IsBatched size 0 t

module _ (batching : Batching) (a : ℕ) (act : Action) where
  pub launch_one-IsBatched :
      (n : ℕ) (rest : List Event)
      → IsBatched batching.max_actions_per_batch (launch_one batching n a act).1 rest
      → IsBatched batching.max_actions_per_batch n ((launch_one batching n a act).0 ++ rest)
        × (launches ((launch_one batching n a act).0 ++ rest) ≡ suc (launches rest))
  unfolding launch_one launches is_batched
  launch_one-IsBatched n rest h = elim (Bool-cases (is_batched batching act)) [
    | inl batched ↦ elim (Bool-cases (ltb n batching.max_actions_per_batch)) [
      | inl room ↦
          rw (launch_one, batched, room)
            ((ground (arith, room), (rw (launch_one, batched, room) at h)), refl)
      | inr full ↦
          rw (launch_one, batched, full)
            ((ground (arith, batched), (rw (launch_one, batched, full) at h)), refl)
    ]
    | inr other ↦ rw (launch_one, other) ((rw (launch_one, other) at h), refl)
  ]
