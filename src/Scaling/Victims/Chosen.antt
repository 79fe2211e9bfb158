-- ===== src/Scaling/Victims/Chosen.antt =====
-- Which nodes the three selections choose.
use mathlib.Core.List.{
  reverse, reverse-cons, Perm, perm_middle, append_assoc, map-append, reverse_perm,
}
use mathlib.Core.List.Perm
use senlin.Prelude.{
  ℕ, zero, suc, ◌+◌, ◌-◌, ◌≤◌, ◌<◌, ◌≡◌, refl, ap, ◌∙◌, Bool, true, false, Option, none, some, List,
  [], ◌∷◌, ◌++◌, map, length, take, drop, length-append, length-take, take-append-drop, arith,
}
use senlin.Prelude.Int.{pos}
use senlin.Node.{Node, is_bad}
use senlin.Scaling.Victims.{
  Sifted, file, sift, filter_error_nodes, first_ids, select, created_key, pick_by_age, nodes_by_age,
  pick_by_profile_age, nodes_by_profile_age,
}
use senlin.Scaling.Victims.Sorting.{
  insert_by, sort_by, sort_by-perm, sort_by-IsSorted, AllPairs, IsSorted, IsSorted-split,
  reverse-IsSorted,
}

abbrev pub ids : List Node → List ℕ
ids = map (λ n. n.id)

-- Every node is chosen first or undecided.
abbrev parts : Sifted → List ℕ
parts s = (s.bad ++ s.not_created) ++ ids s.good

file-perm :
    (bad : Bool) (created_at : Option ℕ) (n : Node) (s : Sifted)
    → Perm (parts (file bad created_at n s)) (n.id ∷ parts s)
unfolding file
file-perm true created_at n s = Perm.rfl
file-perm false none n s = Perm.append_right (ids s.good) (perm_middle s.bad s.not_created)
file-perm false (some _) n s = perm_middle (s.bad ++ s.not_created) (ids s.good)

sift-perm : (nodes : List Node) → Perm (parts (sift nodes)) (ids nodes)
unfolding sift
sift-perm [] = Perm.rfl
sift-perm (n ∷ ns) =
    Perm.trans (file-perm (is_bad n) n.created_at n (sift ns)) (Perm.cons n.id (sift-perm ns))

abbrev size : Sifted → ℕ
size s = length (s.bad ++ s.not_created) + length s.good

size-file :
    (bad : Bool) (created_at : Option ℕ) (n : Node) (s : Sifted)
    → size (file bad created_at n s) ≡ suc (size s)
unfolding file
size-file true created_at n s = omega arith
size-file false none n s =
    omega (arith, length-append s.bad s.not_created, length-append s.bad (n.id ∷ s.not_created))
size-file false (some _) n s = omega arith

size-sift : (nodes : List Node) → size (sift nodes) ≡ length nodes
unfolding sift
size-sift [] = refl
size-sift (n ∷ ns) = size-file (is_bad n) n.created_at n (sift ns) ∙ ap suc (size-sift ns)

length-ids : (l : List Node) → length (ids l) ≡ length l
length-ids [] = refl
length-ids (x ∷ l) = omega (arith, length-ids l)

first_ids-take : (k : ℕ) (l : List Node) → k ≤ length l → first_ids k l ≡ some (ids (take k l))
unfolding first_ids
first_ids-take zero l h = refl
first_ids-take (suc k) [] h = absurd (omega arith)
first_ids-take (suc k) (n ∷ l) h = rw (first_ids-take k l (omega arith))

first_ids-none : (k : ℕ) (l : List Node) → length l < k → first_ids k l ≡ none
unfolding first_ids
first_ids-none zero l h = absurd (omega arith)
first_ids-none (suc k) [] h = refl
first_ids-none (suc k) (n ∷ l) h = rw (first_ids-none k l (omega arith))

-- What a selection that had to go beyond the nodes in error returns: these first, then `chosen`
-- of the undecided nodes, each of them standing to each node that is `left` in the relation.
pub record IsChoice (R : Node → Node → Type 0) (nodes : List Node) (count : ℕ) (victims : List ℕ)
    : Type 0 where
  pub chosen : List Node
  pub left : List Node
  pub undecided : Perm (chosen ++ left) (filter_error_nodes nodes).1
  pub named : victims ≡ (filter_error_nodes nodes).0 ++ ids chosen
  pub counted : length victims ≡ count
  pub ordered : AllPairs R chosen left
  pub others : Perm (victims ++ ids left) (ids nodes)

-- The list of ids that is chosen at first and the undecided nodes.
abbrev pub firsts : List Node → List ℕ
firsts nodes = (filter_error_nodes nodes).0

pub choice :
    (R : Node → Node → Type 0) (nodes chosen left : List Node) (count : ℕ)
    → Perm (chosen ++ left) (filter_error_nodes nodes).1
    → length (firsts nodes) + length chosen ≡ count
    → AllPairs R chosen left
    → IsChoice R nodes count (firsts nodes ++ ids chosen)
unfolding filter_error_nodes
choice R nodes chosen left count p e o = record {
  chosen = chosen;
  left = left;
  undecided = p;
  named = refl;
  counted = omega (arith, length-append (firsts nodes) (ids chosen), length-ids chosen);
  ordered = o;
  others = rw append_assoc (
      rw (← map-append)
        (Perm.trans (Perm.append_left (firsts nodes) (Perm.map (λ n. n.id) p)) (sift-perm nodes)));
}

module _ (nodes : List Node) (c : ℕ) (rest : ℕ → List Node → Option (List ℕ)) where
  pub select-beyond :
      {l : List ℕ}
      → length (firsts nodes) < c
      → rest (c - length (firsts nodes)) (filter_error_nodes nodes).1 ≡ some l
      → select nodes (pos c) rest ≡ some (firsts nodes ++ l)
  unfolding select
  select-beyond h e = ground arith

  pub select-within :
      c ≤ length (firsts nodes) → select nodes (pos c) rest ≡ some (take c (firsts nodes))
  unfolding select
  select-within h = ground arith

  pub select-none :
      length (firsts nodes) < c
      → rest (c - length (firsts nodes)) (filter_error_nodes nodes).1 ≡ none
      → select nodes (pos c) rest ≡ none
  unfolding select
  select-none h e = ground arith

pub size-firsts :
    (nodes : List Node) → length (firsts nodes) + length (filter_error_nodes nodes).1 ≡ length nodes
unfolding filter_error_nodes
size-firsts nodes = size-sift nodes

-- Taking from a list that holds the undecided nodes in the order of the relation.
IsChoice-of_order :
    (R : Node → Node → Type 0) (nodes order : List Node) (c : ℕ)
    → Perm order (filter_error_nodes nodes).1
    → IsSorted R order
    → length order ≡ length (filter_error_nodes nodes).1
    → length (firsts nodes) < c
    → c ≤ length nodes
    → (first_ids (c - length (firsts nodes)) order
        ≡ some (ids (take (c - length (firsts nodes)) order)))
      × IsChoice R nodes c (firsts nodes ++ ids (take (c - length (firsts nodes)) order))
IsChoice-of_order R nodes order c p s e h k =
    let n : ℕ = c - length (firsts nodes) in
    let fits : n ≤ length order = omega (arith, size-firsts nodes) in
    (
      first_ids-take n order fits,
      choice R nodes (take n order) (drop n order) c (rw take-append-drop p)
          (omega (arith, length-take n order fits))
          (IsSorted-split R (take n order) (drop n order) (rw take-append-drop s)),
    )

length-insert_by :
    (key : Node → ℕ) (x : Node) (l : List Node) → length (insert_by key x l) ≡ suc (length l)
unfolding insert_by
length-insert_by key x [] = refl
length-insert_by key x (y ∷ ys) = ground (arith, length-insert_by key x ys)

length-sort_by : (key : Node → ℕ) (l : List Node) → length (sort_by key l) ≡ length l
unfolding sort_by
length-sort_by key [] = refl
length-sort_by key (x ∷ xs) =
    length-insert_by key x (sort_by key xs) ∙ ap suc (length-sort_by key xs)

length-reverse : (l : List Node) → length (reverse l) ≡ length l
length-reverse [] = refl
length-reverse (x ∷ l) =
    rw reverse-cons (omega (arith, length-append (reverse l) (x ∷ []), length-reverse l))

-- The undecided nodes, the first to go at the head.
abbrev pub Earlier : Bool → Node → Node → Type 0
Earlier true a b = created_key a ≤ created_key b
Earlier false a b = created_key b ≤ created_key a

module _ (nodes : List Node) (c : ℕ) (beyond : length (firsts nodes) < c)
    (fits : c ≤ length nodes) where
  -- A selection by age of more nodes than are in error, and of no more than there are, returns as
  -- many ids as asked for: those of the nodes in error or not created, then those of the oldest (or
  -- youngest) of the others. Each id is returned at most as often as the nodes hold it.
  pub nodes_by_age-IsChoice :
      (old_first : Bool)
      → (victims : List ℕ) × (nodes_by_age nodes (pos c) old_first ≡ some victims)
        × IsChoice (Earlier old_first) nodes c victims
  unfolding nodes_by_age pick_by_age
  nodes_by_age-IsChoice true =
      let l = (filter_error_nodes nodes).1 in
      let (e, choice) =
        IsChoice-of_order (Earlier true) nodes (sort_by created_key l) c
          (sort_by-perm created_key l) (sort_by-IsSorted created_key l)
          (length-sort_by created_key l) beyond fits in
      (_, select-beyond nodes c (pick_by_age true) beyond e, choice)
  nodes_by_age-IsChoice false =
      let l = (filter_error_nodes nodes).1 in
      let s = sort_by created_key l in
      let (e, choice) =
        IsChoice-of_order (Earlier false) nodes (reverse s) c
          (Perm.trans (reverse_perm s) (sort_by-perm created_key l))
          (reverse-IsSorted (Earlier true) s (sort_by-IsSorted created_key l))
          (length-reverse s ∙ length-sort_by created_key l) beyond fits in
      (_, select-beyond nodes c (pick_by_age false) beyond e, choice)

  -- A selection by the age of the profile of more nodes than are in error, and of no more than
  -- there are, returns as many ids as asked for: those of the nodes in error or not created, then
  -- those of the others whose profiles are the oldest. Each id is returned at most as often as the
  -- nodes hold it.
  pub nodes_by_profile_age-IsChoice :
      (victims : List ℕ) × (nodes_by_profile_age nodes (pos c) ≡ some victims)
      × IsChoice (λ a b. a.profile_created_at ≤ b.profile_created_at) nodes c victims
  unfolding nodes_by_profile_age pick_by_profile_age
  nodes_by_profile_age-IsChoice =
      let l = (filter_error_nodes nodes).1 in
      let key : Node → ℕ = λ n. n.profile_created_at in
      let (e, choice) =
        IsChoice-of_order (λ a b. key a ≤ key b) nodes (sort_by key l) c (sort_by-perm key l)
          (sort_by-IsSorted key l) (length-sort_by key l) beyond fits in
      (_, select-beyond nodes c pick_by_profile_age beyond e, choice)

-- The nodes in error and the undecided ones are all the nodes, each once.
pub order-perm :
    (nodes : List Node) → Perm (firsts nodes ++ ids (filter_error_nodes nodes).1) (ids nodes)
unfolding filter_error_nodes
order-perm nodes = sift-perm nodes

pub length-order :
    (nodes : List Node) → length (firsts nodes ++ ids (filter_error_nodes nodes).1) ≡ length nodes
length-order nodes = omega (
  arith,
  length-append (firsts nodes) (ids (filter_error_nodes nodes).1),
  length-ids (filter_error_nodes nodes).1,
  size-firsts nodes,
)
