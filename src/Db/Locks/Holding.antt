-- ===== src/Db/Locks/Holding.antt =====
-- What a lock on a cluster means: it is free, held by one action for itself, or shared.
use senlin.Prelude.{
  ℕ, suc, ◌<◌, ◌≡◌, refl, Bool, true, false, Option, none, some, List, [], ◌∷◌, ◌++◌, contains,
  remove, length, ◌==◌, if◌then◌else◌, Bool-cases, inl, inr, arith,
}
use senlin.Prelude.Int.{pos, negsuc}
use senlin.Db.{ClusterLock}
use senlin.Db.Locks.{Scope, cluster_scope, node_scope}

pub data Held : Type 0 where
  free : Held
  exclusive : ℕ → Held
  shared : List ℕ → Held

-- No id stands twice in the list.
abbrev pub IsDistinct : List ℕ → Type 0
IsDistinct [] = Unit
IsDistinct (x ∷ xs) = (contains xs x ≡ false) × IsDistinct xs

-- The row that stands for a state: the semaphore of a shared lock counts its holders.
abbrev pub Represents : Option ClusterLock → Held → Type 0
Represents row free = row ≡ none
Represents row (exclusive a) = row ≡ some (record { action_ids = a ∷ []; semaphore = negsuc 0 })
Represents row (shared holders) =
    (row ≡ some (record { action_ids = holders; semaphore = pos (length holders) }))
    × (0 < length holders)
    × IsDistinct holders

-- The state after an attempt to lock, and whether the action holds the lock then.
unfoldable pub lock : Held → ℕ → Scope → Bool × Held
lock free a cluster_scope = (true, exclusive a)
lock free a node_scope = (true, shared (a ∷ []))
lock (exclusive b) a scope = (b == a, exclusive b)
lock (shared holders) a cluster_scope = (contains holders a, shared holders)
lock (shared holders) a node_scope =
    (true, shared (if contains holders a then holders else holders ++ a ∷ []))

-- A shared lock whose last holder leaves is free.
unfoldable pub sharing : List ℕ → Held
sharing [] = free
sharing (x ∷ xs) = shared (x ∷ xs)

-- The state after a release, and whether the action held the lock.
unfoldable pub unlock : Held → ℕ → Bool × Held
unfolding sharing
unlock free a = (false, free)
unlock (exclusive b) a = if b == a then (true, free) else (false, exclusive b)
unlock (shared holders) a =
    if contains holders a then (true, sharing (remove holders a)) else (false, shared holders)

-- A lock that one action holds for itself is released as a cluster-level lock.
abbrev pub Matches : Held → Scope → Type 0
Matches (exclusive b) scope = scope ≡ cluster_scope
Matches h scope = Unit

pub contains-snoc :
    (xs : List ℕ) (a b : ℕ) → contains (xs ++ a ∷ []) b ≡ (if contains xs b then true else a == b)
contains-snoc [] a b = ground arith
contains-snoc (x ∷ xs) a b = ground (arith, contains-snoc xs a b)

pub snoc-IsDistinct :
    (xs : List ℕ) (a : ℕ) → IsDistinct xs → contains xs a ≡ false → IsDistinct (xs ++ a ∷ [])
snoc-IsDistinct [] a d n = (refl, tt)
snoc-IsDistinct (x ∷ xs) a d n =
    (ground (arith, contains-snoc xs a x), snoc-IsDistinct xs a d.1 (ground arith))

pub length-remove :
    (xs : List ℕ) (a : ℕ) → contains xs a ≡ true → suc (length (remove xs a)) ≡ length xs
length-remove [] a h = cc
length-remove (x ∷ xs) a h = ground (arith, length-remove xs a)

pub contains-remove :
    (xs : List ℕ) (a b : ℕ) → contains xs b ≡ false → contains (remove xs a) b ≡ false
contains-remove [] a b h = refl
contains-remove (x ∷ xs) a b h = ground (arith, contains-remove xs a b)

pub remove-IsDistinct : (xs : List ℕ) (a : ℕ) → IsDistinct xs → IsDistinct (remove xs a)
remove-IsDistinct [] a d = tt
remove-IsDistinct (x ∷ xs) a d = elim (Bool-cases (x == a)) [
  | inl e ↦ rw e d.1
  | inr e ↦ rw e (contains-remove xs a x d.0, remove-IsDistinct xs a d.1)
]
