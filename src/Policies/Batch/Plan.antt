-- ===== src/Policies/Batch/Plan.antt =====
-- The plan of a batch policy updates every node once, in batches that leave enough nodes in
-- service.
use mathlib.Core.List.{Perm}
use mathlib.Core.List.Perm
use senlin.Prelude.{
  ℕ, zero, suc, ◌≤◌, ◌<◌, ◌≡◌, refl, ap, ◌⊎◌, some, List, [], ◌∷◌, ◌++◌, All, length, take, drop,
  take-append-drop, arith,
}
use senlin.Prelude.Int.{ℤ, pos, negsuc, ◌≤ℤ◌, ◌<ℤ◌, ◌+ℤ◌, ◌-ℤ◌}
use senlin.Node.{Node}
use senlin.Scaling.Victims.Chosen.{ids, order-perm}
use senlin.Policies.Batch.{batch_size, slices, update_order, pick_nodes, create_plan}

abbrev pub joined : List (List ℕ) → List ℕ
joined [] = []
joined (b ∷ bs) = b ++ joined bs

length-take_le : (n : ℕ) (l : List ℕ) → length (take n l) ≤ n
length-take_le zero l = omega arith
length-take_le (suc n) [] = omega arith
length-take_le (suc n) (x ∷ l) = omega (arith, length-take_le n l)

length-drop_le : (n : ℕ) (l : List ℕ) → length (drop n l) ≤ length l
length-drop_le zero l = omega arith
length-drop_le (suc n) [] = omega arith
length-drop_le (suc n) (x ∷ l) = omega (arith, length-drop_le n l)

slices-joined : (fuel k : ℕ) (l : List ℕ) → length l ≤ fuel → joined (slices fuel (suc k) l) ≡ l
unfolding slices
slices-joined zero k [] h = refl
slices-joined zero k (x ∷ l) h = absurd (omega arith)
slices-joined (suc fuel) k [] h = refl
slices-joined (suc fuel) k (x ∷ l) h =
    rw (slices-joined fuel k (drop k l) (omega (arith, length-drop_le k l)))
      (ap (◌∷◌ x) (take-append-drop k l))

slices-All :
    (fuel k : ℕ) (l : List ℕ)
    → All (λ b. (0 < length b) × (length b ≤ suc k)) (slices fuel (suc k) l)
unfolding slices
slices-All zero k l = tt
slices-All (suc fuel) k [] = tt
slices-All (suc fuel) k (x ∷ l) =
    ((omega arith, omega (arith, length-take_le k l)), slices-All fuel k (drop k l))

-- The two settings of the maximal batch size that work: -1 for none, or a positive one.
abbrev pub IsUsable : ℤ → Type 0
IsUsable max_batch_size = (max_batch_size ≡ negsuc 0) ⊎ (pos 0 <ℤ max_batch_size)

-- The size is positive, not above the maximum, and leaves the nodes that have to stay in service
-- where there are more than these.
pub batch_size_bounds :
    (min_in_service max_batch_size : ℤ) (total : ℕ)
    → 0 < total
    → IsUsable max_batch_size
    → (pos 0 <ℤ batch_size min_in_service max_batch_size total)
      × ((pos total ≤ℤ min_in_service)
          ⊎ (batch_size min_in_service max_batch_size total +ℤ min_in_service ≤ℤ pos total))
      × ((max_batch_size ≡ negsuc 0)
          ⊎ (batch_size min_in_service max_batch_size total ≤ℤ max_batch_size))
unfolding batch_size ◌+ℤ◌ ◌-ℤ◌
batch_size_bounds m (negsuc zero) total h u = ground arith
batch_size_bounds m (negsuc (suc k)) total h u = ground arith
batch_size_bounds m (pos k) total h u = ground arith

-- A batch of the plan: it is not empty, respects the maximal batch size, and leaves as many nodes
-- in service as there have to be, where the cluster has more than these.
pub record IsBatch (min_in_service max_batch_size : ℤ) (total : ℕ) (b : List ℕ) : Type 0 where
  pub not_empty : 0 < length b
  pub leaves : (pos total ≤ℤ min_in_service) ⊎ (pos (length b) +ℤ min_in_service ≤ℤ pos total)
  pub fits : (max_batch_size ≡ negsuc 0) ⊎ (pos (length b) ≤ℤ max_batch_size)

length_of_le-IsBatch :
    (m x : ℤ) (total k : ℕ) (b : List ℕ)
    → (pos total ≤ℤ m) ⊎ (pos (suc k) +ℤ m ≤ℤ pos total)
    → (x ≡ negsuc 0) ⊎ (pos (suc k) ≤ℤ x)
    → (0 < length b) × (length b ≤ suc k)
    → IsBatch m x total b
unfolding ◌+ℤ◌
length_of_le-IsBatch m x total k b l f h = record {
  not_empty = h.0;
  leaves = ground arith;
  fits = ground arith;
}

All-map :
    {P Q : List ℕ → Type 0} (bs : List (List ℕ)) → ((b : List ℕ) → P b → Q b) → All P bs → All Q bs
All-map [] f h = tt
All-map {P} {Q} (b ∷ bs) f h = (f b h.0, All-map {P = P} {Q = Q} bs f h.1)

plan_of :
    (m x size : ℤ) (n : Node) (ns : List Node)
    → size ≡ batch_size m x (length (n ∷ ns))
    → pos 0 <ℤ size
    → (pos (length (n ∷ ns)) ≤ℤ m) ⊎ (size +ℤ m ≤ℤ pos (length (n ∷ ns)))
    → (x ≡ negsuc 0) ⊎ (size ≤ℤ x)
    → (plan : List (List ℕ)) × (create_plan m x (n ∷ ns) ≡ some plan)
      × Perm (joined plan) (ids (n ∷ ns))
      × All (IsBatch m x (length (n ∷ ns))) plan
unfolding create_plan pick_nodes
plan_of m x (negsuc k) n ns e p l f = absurd (omega (arith, p))
plan_of m x (pos zero) n ns e p l f = absurd (omega (arith, p))
plan_of m x (pos (suc k)) n ns e p l f =
    let order = update_order (n ∷ ns) in
    (
      slices (length order) (suc k) order,
      rw (← e),
      rw (slices-joined (length order) k order (omega arith))
          (unfold update_order in order-perm (n ∷ ns)),
      All-map (slices (length order) (suc k) order)
          (λ b. length_of_le-IsBatch m x (length (n ∷ ns)) k b l f)
          (slices-All (length order) k order),
    )

-- For a maximal batch size that is positive or -1 a plan is made, and its batches hold the ids of
-- all the nodes, each once. No batch is empty or above the maximal size, and each leaves as many
-- nodes out as have to stay in service, where the cluster has more nodes than these.
pub create_plan_lem :
    (min_in_service max_batch_size : ℤ) (nodes : List Node)
    → IsUsable max_batch_size
    → (plan : List (List ℕ)) × (create_plan min_in_service max_batch_size nodes ≡ some plan)
      × Perm (joined plan) (ids nodes)
      × All (IsBatch min_in_service max_batch_size (length nodes)) plan
create_plan_lem m x [] u = ([], unfold create_plan in refl, Perm.rfl, tt)
create_plan_lem m x (n ∷ ns) u =
    let (p, l, f) = batch_size_bounds m x (length (n ∷ ns)) (omega arith) u in
    plan_of m x (batch_size m x (length (n ∷ ns))) n ns refl p l f

batch_size-negative :
    (m : ℤ) (k total : ℕ) → 0 < total → batch_size m (negsuc (suc k)) total ≡ negsuc (suc k)
unfolding batch_size ◌-ℤ◌
batch_size-negative m k total h = ground arith

-- With a negative maximal batch size other than -1, the plan of a cluster with nodes has no
-- batches.
create_plan_negative :
    (min_in_service : ℤ) (k : ℕ) (n : Node) (ns : List Node)
    → create_plan min_in_service (negsuc (suc k)) (n ∷ ns) ≡ some []
unfolding create_plan pick_nodes
create_plan_negative m k n ns = rw (batch_size-negative m k (length (n ∷ ns)) (omega arith))
