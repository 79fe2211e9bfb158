-- ===== src/Scaling/Victims.antt =====
-- The choice of the nodes to delete in senlin/common/scaleutils.py. `none` is a raised exception:
-- the `IndexError` of a list index, or the `ValueError` of `random.randrange(0)`.
pub mod Sorting
pub mod Chosen
pub mod Random
use mathlib.Core.List.{reverse}
use senlin.Prelude.{
  ℕ, zero, suc, ◌+◌, ◌-◌, Bool, true, false, Option, none, some, List, [], ◌∷◌, ◌++◌, map, length,
  take, get_elem?, erase_idx, if◌then◌else◌, leb,
}
use senlin.Prelude.Int.{ℤ, pos, negsuc, pos_part, leb_ℤ}
use senlin.Node.{Node, is_bad}
use Sorting.{sort_by}

-- The three lists that the loop of `filter_error_nodes` fills.
pub record Sifted : Type 0 where
  pub bad : List ℕ
  pub not_created : List ℕ
  pub good : List Node

-- The branches of the loop's body: whether the node is in error, and its creation time.
unfoldable pub file : Bool → Option ℕ → Node → Sifted → Sifted
file true created_at n s = record s { bad = n.id ∷ s.bad }
file false none n s = record s { not_created = n.id ∷ s.not_created }
file false (some _) n s = record s { good = n ∷ s.good }

unfoldable pub sift : List Node → Sifted
unfolding file
sift [] = record { bad = []; not_created = []; good = [] }
sift (n ∷ ns) = file (is_bad n) n.created_at n (sift ns)

-- The ids chosen first, and the undecided nodes.
unfoldable pub filter_error_nodes : List Node → List ℕ × List Node
filter_error_nodes nodes = let s = sift nodes in (s.bad ++ s.not_created, s.good)

-- `l[:count]`: a negative count drops from the end.
unfoldable pub slice_to {ℓ} : {A : Type ℓ} → ℤ → List A → List A
slice_to (pos n) l = take n l
slice_to (negsuc n) l = take (length l - suc n) l

-- The ids at the first `count` places.
unfoldable pub first_ids : ℕ → List Node → Option (List ℕ)
first_ids zero l = some []
first_ids (suc k) [] = none
first_ids (suc k) (n ∷ l) = elim (first_ids k l) [ none ↦ none | some ids ↦ some (n.id ∷ ids) ]

-- The part that the three selections share: `rest` picks from the undecided nodes.
unfoldable pub select : List Node → ℤ → (ℕ → List Node → Option (List ℕ)) → Option (List ℕ)
unfolding slice_to
select nodes count rest =
    let (selected, candidates) = filter_error_nodes nodes in
    if leb_ℤ count (pos (length selected))
    then some (slice_to count selected)
    else elim (rest (pos_part count - length selected) candidates) [
      | none ↦ none
      | some ids ↦ some (selected ++ ids)
    ]

-- Undecided nodes have a creation time.
unfoldable pub created_key : Node → ℕ
created_key n = elim n.created_at [ none ↦ 0 | some t ↦ t ]

-- `sorted_list[i]` for `i` from 0 on, or `sorted_list[-1 - i]`.
unfoldable pub pick_by_age : Bool → ℕ → List Node → Option (List ℕ)
pick_by_age old_first count candidates =
    let sorted_list = sort_by created_key candidates in
    first_ids count (if old_first then sorted_list else reverse sorted_list)

unfoldable pub nodes_by_age : List Node → ℤ → Bool → Option (List ℕ)
nodes_by_age nodes count old_first = select nodes count (pick_by_age old_first)

unfoldable pub pick_by_profile_age : ℕ → List Node → Option (List ℕ)
pick_by_profile_age count candidates =
    first_ids count (sort_by (λ n. n.profile_created_at) candidates)

unfoldable pub nodes_by_profile_age : List Node → ℤ → Option (List ℕ)
nodes_by_profile_age nodes count = select nodes count pick_by_profile_age

-- The id of a node before the ids of the rounds that follow; an exception ends the loop.
unfoldable pub prepend : Option Node → Option (List ℕ) → Option (List ℕ)
prepend none rest = none
prepend (some n) none = none
prepend (some n) (some ids) = some (n.id ∷ ids)

-- The loop of `nodes_by_random`: `draw i n` is the value of `random.randrange(n)` with `i` rounds
-- left. `candidates.remove` takes out the node that was drawn, the list holding each object once.
unfoldable pub pick_random : (ℕ → ℕ → ℕ) → ℕ → List Node → Option (List ℕ)
unfolding prepend
pick_random draw zero candidates = some []
pick_random draw (suc i) candidates =
    let rand = draw (suc i) (length candidates) in
    let rest = pick_random draw i (erase_idx candidates rand) in
    prepend (get_elem? candidates rand) rest

unfoldable pub nodes_by_random : (ℕ → ℕ → ℕ) → List Node → ℤ → Option (List ℕ)
nodes_by_random draw nodes count = select nodes count (pick_random draw)
