-- ===== src/Scaling/Victims/Random.antt =====
-- The random selection: any draws that stay in range choose as many nodes as asked for.
use mathlib.Core.List.{Perm}
use mathlib.Core.List.Perm
use mathlib.Core.Path.{ap₂}
use senlin.Prelude.{
  ℕ, zero, suc, ◌-◌, ◌≤◌, ◌<◌, ◌≡◌, refl, some, List, [], ◌∷◌, ◌++◌, length, get_elem?, erase_idx,
  All, arith,
}
use senlin.Prelude.Int.{pos}
use senlin.Node.{Node}
use senlin.Scaling.Victims.{filter_error_nodes, prepend, pick_random, nodes_by_random}
use senlin.Scaling.Victims.Sorting.{AllPairs}
use senlin.Scaling.Victims.Chosen.{ids, firsts, IsChoice, choice, select-beyond, size-firsts}

abbrev pub Any : Node → Node → Type 0
Any a b = Unit {0}

All-Any : (x : Node) (l : List Node) → All (Any x) l
All-Any x [] = tt
All-Any x (y ∷ l) = (tt, All-Any x l)

AllPairs-Any : (xs ys : List Node) → AllPairs Any xs ys
AllPairs-Any [] ys = tt
AllPairs-Any (x ∷ xs) ys = (All-Any x ys, AllPairs-Any xs ys)

drawn :
    (l : List Node) (i : ℕ)
    → i < length l
    → (n : Node) × (get_elem? l i ≡ some n)
      × Perm (n ∷ erase_idx l i) l
      × (suc (length (erase_idx l i)) ≡ length l)
drawn [] i h = absurd (omega arith)
drawn (x ∷ l) zero h = (x, refl, Perm.rfl, refl)
drawn (x ∷ l) (suc i) h =
    let (n, e, p, s) = drawn l i (omega arith) in
    (n, e, Perm.trans (Perm.swap x n (erase_idx l i)) (Perm.cons x p), omega arith)

-- What `random.randrange(n)` returns is below `n`, for a positive `n`.
abbrev pub InRange : (ℕ → ℕ → ℕ) → Type 0
InRange draw = (i n : ℕ) → 0 < n → draw i n < n

step_of :
    (draw : ℕ → ℕ → ℕ) (i : ℕ) (l : List Node) (n : Node) {chosen : List ℕ}
    → get_elem? l (draw (suc i) (length l)) ≡ some n
    → pick_random draw i (erase_idx l (draw (suc i) (length l))) ≡ some chosen
    → pick_random draw (suc i) l ≡ some (n.id ∷ chosen)
unfolding pick_random
step_of draw i l n e e' = ap₂ prepend e e'

module _ (draw : ℕ → ℕ → ℕ) (in_range : InRange draw) where
  pick_random-choice :
      (i : ℕ) (l : List Node)
      → i ≤ length l
      → (chosen left : List Node) × (pick_random draw i l ≡ some (ids chosen))
        × Perm (chosen ++ left) l
        × (length chosen ≡ i)
  unfolding pick_random
  pick_random-choice zero l h = ([], l, refl, Perm.rfl, refl)
  pick_random-choice (suc i) l h =
      let rand = draw (suc i) (length l) in
      let (n, e, p, s) = drawn l rand (in_range (suc i) (length l) (omega arith)) in
      let (chosen, left, e', p', s') = pick_random-choice i (erase_idx l rand) (omega arith) in
      (n ∷ chosen, left, step_of draw i l n e e', Perm.trans (Perm.cons n p') p, omega arith)

  -- A random selection of more nodes than are in error, and of no more than there are, returns as
  -- many ids as asked for: those of the nodes in error or not created, then those of some of the
  -- others. Each id is returned at most as often as the nodes hold it.
  pub nodes_by_random-IsChoice :
      (nodes : List Node) (c : ℕ)
      → length (firsts nodes) < c
      → c ≤ length nodes
      → (victims : List ℕ) × (nodes_by_random draw nodes (pos c) ≡ some victims)
        × IsChoice Any nodes c victims
  unfolding nodes_by_random
  nodes_by_random-IsChoice nodes c beyond fits =
      let (chosen, left, e, p, s) =
        pick_random-choice (c - length (firsts nodes)) (filter_error_nodes nodes).1
          (omega (arith, size-firsts nodes)) in
      (
        _,
        select-beyond nodes c (pick_random draw) beyond e,
        choice Any nodes chosen left c p (omega arith) (AllPairs-Any chosen left),
      )
