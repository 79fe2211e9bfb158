-- ===== src/Db/Collect/Cleanup.antt =====
-- After `gc_by_engine` the engine owns no action, and no lock is held by an action that it owned.
use senlin.Prelude.{
  ℕ, ◌≡◌, refl, ◌⊎◌, inl, inr, false, Option, none, some, List, [], ◌∷◌, contains, remove, ◌==◌,
  arith, Bool-cases, ◌||◌,
}
use senlin.Db.{ClusterLock, Db, failed}
use senlin.Db.Cascade.{for_each}
use senlin.Db.Cascade.Termination.{mark-ends}
use senlin.Db.Locks.Holding.{IsDistinct, remove-IsDistinct, contains-remove}
use senlin.Prelude.Int.{ltb_ℤ, pos, ◌-ℤ◌}
use senlin.Db.Locks.{is_one}
use senlin.Db.Collect.{drop_node_locks, cons_row, collect_lock, collect_locks, collect_action}

-- The collection of one action returns.
collect_action-ends :
    (timestamp a : ℕ) (db : Db) → (db' : Db) × (collect_action timestamp a db ≡ some db')
unfolding collect_action
collect_action-ends timestamp a db =
    let (db', e, _) = mark-ends failed timestamp (some "Engine failure") a (record db {
      node_locks = drop_node_locks a db.node_locks;
      cluster_locks = collect_locks a db.cluster_locks;
    }) in
    (db', e)

pub for_each-ends :
    (timestamp : ℕ) (ds : List ℕ) (db : Db)
    → (db' : Db) × (for_each (collect_action timestamp) ds db ≡ some db')
unfolding for_each
for_each-ends timestamp [] db = (db, refl)
for_each-ends timestamp (d ∷ ds) db =
    let (mid, e) = collect_action-ends timestamp d db in
    let (db', e') = for_each-ends timestamp ds mid in (db', rw e e')

-- No lock of a node or of a cluster is held by the action.
abbrev pub NodeFree : ℕ → List (ℕ × ℕ) → Type 0
NodeFree a [] = Unit
NodeFree a ((n, owner) ∷ t) = ((owner == a) ≡ false) × NodeFree a t

abbrev pub ClusterFree : ℕ → List (ℕ × ClusterLock) → Type 0
ClusterFree a [] = Unit
ClusterFree a ((c, lock) ∷ t) = (contains lock.action_ids a ≡ false) × ClusterFree a t

abbrev pub AllDistinct : List (ℕ × ClusterLock) → Type 0
AllDistinct [] = Unit
AllDistinct ((c, lock) ∷ t) = IsDistinct lock.action_ids × AllDistinct t

pub drop_node_locks-NodeFree : (a : ℕ) (t : List (ℕ × ℕ)) → NodeFree a (drop_node_locks a t)
unfolding drop_node_locks
drop_node_locks-NodeFree a [] = tt
drop_node_locks-NodeFree a ((n, owner) ∷ t) = elim (Bool-cases (owner == a)) [
  | inl e ↦ rw e (drop_node_locks-NodeFree a t)
  | inr e ↦ rw e (e, drop_node_locks-NodeFree a t)
]

pub drop_node_locks-keeps :
    (a b : ℕ) (t : List (ℕ × ℕ)) → NodeFree b t → NodeFree b (drop_node_locks a t)
unfolding drop_node_locks
drop_node_locks-keeps a b [] h = tt
drop_node_locks-keeps a b ((n, owner) ∷ t) h = elim (Bool-cases (owner == a)) [
  | inl e ↦ rw e (drop_node_locks-keeps a b t h.1)
  | inr e ↦ rw e (h.0, drop_node_locks-keeps a b t h.1)
]

-- A row that is left holds distinct ids, among them not the action, and none that was not there.
abbrev Cleared : ℕ → ClusterLock → Option ClusterLock → Type 0
Cleared a lock none = Unit
Cleared a lock (some l) =
    IsDistinct l.action_ids
    × (contains l.action_ids a ≡ false)
    × ((l.action_ids ≡ lock.action_ids) ⊎ (l.action_ids ≡ remove lock.action_ids a))

collect-cases :
    (a : ℕ) (lock : ClusterLock)
    → (collect_lock a lock ≡ none)
      ⊎ ((l : ClusterLock) × (collect_lock a lock ≡ some l)
          × ((l.action_ids ≡ remove lock.action_ids a)
              ⊎ ((contains lock.action_ids a ≡ false) × (l ≡ lock))))
unfolding collect_lock
collect-cases a lock = elim (Bool-cases (contains lock.action_ids a)) [
  | inl held ↦ elim (Bool-cases (ltb_ℤ lock.semaphore (pos 0) || is_one lock.semaphore)) [
    | inl last ↦ inl (ground (arith, held, last))
    | inr more ↦ inr (
      record { action_ids = remove lock.action_ids a; semaphore = lock.semaphore -ℤ pos 1 },
      ground (arith, held, more),
      inl refl,
    )
  ]
  | inr out ↦ inr (lock, ground (arith, out), inr (out, refl))
]

remove_self : (xs : List ℕ) (a : ℕ) → IsDistinct xs → contains (remove xs a) a ≡ false
remove_self [] a d = refl
remove_self (x ∷ xs) a d = ground (arith, remove_self xs a d.1, d.0)

collect_lock-Cleared :
    (a : ℕ) (lock : ClusterLock) → IsDistinct lock.action_ids → Cleared a lock (collect_lock a lock)
collect_lock-Cleared a lock d = elim (collect-cases a lock) [
  | inl gone ↦ rw gone tt
  | inr (l, e, inl less) ↦ rw e (
    rw less (remove-IsDistinct lock.action_ids a d),
    rw less (remove_self lock.action_ids a d),
    inr less,
  )
  | inr (l, e, inr (out, same)) ↦ rw (e, same) (d, out, inl refl)
]

pub collect_locks-ClusterFree :
    (a : ℕ) (t : List (ℕ × ClusterLock))
    → AllDistinct t
    → AllDistinct (collect_locks a t) × ClusterFree a (collect_locks a t)
unfolding collect_locks
collect_locks-ClusterFree a [] d = (tt, tt)
collect_locks-ClusterFree a ((c, lock) ∷ t) d =
    cons_Cleared (collect_lock a lock) (collect_lock-Cleared a lock d.0)
      (collect_locks-ClusterFree a t d.1)
  where
    cons_Cleared :
        (o : Option ClusterLock)
        → Cleared a lock o
        → AllDistinct (collect_locks a t) × ClusterFree a (collect_locks a t)
        → AllDistinct (cons_row c o (collect_locks a t))
          × ClusterFree a (cons_row c o (collect_locks a t))
    cons_Cleared none k ih = ih
    cons_Cleared (some l) k ih = ((k.0, ih.0), (k.1, ih.1))

pub collect_locks-keeps :
    (a b : ℕ) (t : List (ℕ × ClusterLock))
    → AllDistinct t
    → ClusterFree b t
    → ClusterFree b (collect_locks a t)
unfolding collect_locks
collect_locks-keeps a b [] d h = tt
collect_locks-keeps a b ((c, lock) ∷ t) d h =
    cons_Cleared (collect_lock a lock) (collect_lock-Cleared a lock d.0)
      (collect_locks-keeps a b t d.1 h.1)
  where
    cons_Cleared :
        (o : Option ClusterLock)
        → Cleared a lock o
        → ClusterFree b (collect_locks a t)
        → ClusterFree b (cons_row c o (collect_locks a t))
    cons_Cleared none k ih = ih
    cons_Cleared (some l) (k, k', inl same) ih = (rw same h.0, ih)
    cons_Cleared (some l) (k, k', inr less) ih =
        (rw less (contains-remove lock.action_ids a b h.0), ih)
