-- ===== src/Policies/Placement/Check/Outcome.antt =====
-- What `pre_op` of the region policy answers for a positive number of nodes.
use senlin.Prelude.{
  ℕ, zero, suc, ◌≡◌, refl, ◌⊎◌, inl, inr, Bool, true, false, Option, some, List, [], ◌∷◌, All,
  contains, Bool-cases,
}
use senlin.Prelude.Int.{ℤ, pos, negsuc, neg, ◌+ℤ◌, ◌-ℤ◌, ◌*ℤ◌, ◌≤ℤ◌, ◌<ℤ◌}
use senlin.Node.{Node}
use senlin.Table.{lookup}
use senlin.Engine.Cluster.{get_region_distribution}
use senlin.Engine.Cluster.Health.{get_region_distribution_lem}
use senlin.Policies.Placement.{
  Region, floor_by, floor_quotient, ceil_quotient, goes_before, put_in, by_weight, sum_weights,
  capped, headroom, placed,
}
use senlin.Policies.Placement.Filling.{sum_plan, positive_part, all_room, IsPlaced}
use senlin.Policies.Placement.Plans.{room_for, create_plan-all_room}
use senlin.Policies.Placement.Check.{no_feasible_plan, as_outcome, keep_usable, place_regions}

floor_quotient-returns : (a b : ℤ) → ¬ (b ≡ pos 0) → (q : ℤ) × (floor_quotient a b ≡ some q)
unfolding floor_quotient
floor_quotient-returns a (pos zero) h = absurd (h refl)
floor_quotient-returns a (pos (suc d)) h = (floor_by a d, refl)
floor_quotient-returns a (negsuc d) h = (floor_by (neg a) d, refl)

headroom-returns :
    (expand : Bool) (total sum_weight : ℤ) (r : Region) (here : ℕ)
    → ¬ (sum_weight ≡ pos 0)
    → (free : ℤ) × (headroom expand total sum_weight r here ≡ some free)
unfolding headroom ceil_quotient
headroom-returns true total sum_weight r here h =
    let (q, e) = floor_quotient-returns (neg (total *ℤ r.weight)) sum_weight h in
    (capped r.cap (neg q) -ℤ pos here, rw e refl)
headroom-returns false total sum_weight r here h =
    let (q, e) = floor_quotient-returns (total *ℤ r.weight) sum_weight h in
    (pos here -ℤ q, rw e refl)

-- What holds of the regions holds of them in the order of their weights.
All-put_in :
    (P : Region → Type 0) (reverse : Bool) (r : Region) (rs : List Region)
    → P r
    → All P rs
    → All P (put_in reverse r rs)
unfolding put_in
All-put_in P reverse r [] h hs = (h, tt)
All-put_in P reverse r (s ∷ rs) h hs = elim (Bool-cases (goes_before reverse r s)) [
  | inl first ↦ rw first (h, hs)
  | inr later ↦ rw later (hs.0, All-put_in P reverse r rs h hs.1)
]

pub All-by_weight :
    (P : Region → Type 0) (reverse : Bool) (rs : List Region)
    → All P rs
    → All P (by_weight reverse rs)
unfolding by_weight
All-by_weight P reverse [] h = tt
All-by_weight P reverse (r ∷ rs) h =
    All-put_in P reverse r (by_weight reverse rs) h.0 (All-by_weight P reverse rs h.1)

pub keep_usable-contains :
    (good : List ℕ) (rs : List Region)
    → All (λ r. contains good r.name ≡ true) (keep_usable good rs)
unfolding keep_usable
keep_usable-contains good [] = tt
keep_usable-contains good (r ∷ rs) = elim (Bool-cases (contains good r.name)) [
  | inl usable ↦ rw usable (usable, keep_usable-contains good rs)
  | inr other ↦ rw other (keep_usable-contains good rs)
]

-- The rooms are known where the regions have their places and rooms are computed.
all_room-returns :
    (room : Region → ℕ → Option ℤ) (current : List (ℕ × ℕ)) (rs : List Region)
    → ((r : Region) (here : ℕ) → (free : ℤ) × (room r here ≡ some free))
    → All (λ r. (here : ℕ) × (lookup r.name current ≡ some here)) rs
    → (f : ℤ) × (all_room room current rs ≡ some f)
all_room-returns room current [] known h = (pos 0, refl)
all_room-returns room current (r ∷ rs) known ((here, e), h) =
    let (free, e1) = known r here in
    let (others, e2) = all_room-returns room current rs known h in
    (positive_part free +ℤ others, rw (e, e1, e2) refl)

module _ (good : List ℕ) (nodes : List Node) where
  has_place :
      (rs : List Region)
      → All (λ r. contains good r.name ≡ true) rs
      → All (λ r. (here : ℕ) × (lookup r.name (get_region_distribution good nodes) ≡ some here)) rs
  has_place [] h = tt
  has_place (r ∷ rs) h = ((_, get_region_distribution_lem good nodes r.name h.0), has_place rs h.1)

  -- The rooms of the usable regions are known.
  pub usable_room :
      (regions : List Region) (count : ℤ) (expand : Bool)
      → ¬ (sum_weights (keep_usable good regions) ≡ pos 0)
      → (f : ℤ) × (all_room
            (room_for (get_region_distribution good nodes) (keep_usable good regions) count expand)
            (get_region_distribution good nodes)
            (by_weight expand (keep_usable good regions))
          ≡ some f)
  usable_room regions count expand h =
      let rs = keep_usable good regions in
      all_room-returns _ (get_region_distribution good nodes) (by_weight expand rs)
        (λ r here. headroom-returns expand _ (sum_weights rs) r here h)
        (has_place (by_weight expand rs) (
          All-by_weight (λ r. contains good r.name ≡ true) expand rs
            (keep_usable-contains good regions)))

-- A request of the region policy for a positive number of nodes is answered, if a region is usable
-- and the weights of the usable ones do not sum to zero: by a plan that gives each of them a
-- positive number within its room and assigns all the nodes, or, exactly where the regions have no
-- room for them, by an error.
pub place_regions_lem :
    (g : ℕ) (gs : List ℕ) (regions : List Region) (nodes : List Node) (count : ℤ) (expand : Bool)
    → ¬ (sum_weights (keep_usable (g ∷ gs) regions) ≡ pos 0)
    → pos 0 <ℤ count
    → (f : ℤ) × (all_room
          (room_for
            (get_region_distribution (g ∷ gs) nodes)
            (keep_usable (g ∷ gs) regions)
            count
            expand)
          (get_region_distribution (g ∷ gs) nodes)
          (by_weight expand (keep_usable (g ∷ gs) regions))
        ≡ some f)
      × (((count ≤ℤ f)
            × (plan : List (ℕ × ℤ)) × (place_regions (g ∷ gs) regions nodes count expand
                ≡ some (as_outcome expand count (placed plan)))
            × (sum_plan plan ≡ count)
            × All
                (IsPlaced
                  (room_for
                    (get_region_distribution (g ∷ gs) nodes)
                    (keep_usable (g ∷ gs) regions)
                    count
                    expand)
                  (get_region_distribution (g ∷ gs) nodes)
                  (by_weight expand (keep_usable (g ∷ gs) regions)))
                plan)
          ⊎ ((f <ℤ count)
              × (place_regions (g ∷ gs) regions nodes count expand ≡ some no_feasible_plan)))
unfolding place_regions
place_regions_lem g gs regions nodes count expand h p =
    let current = get_region_distribution (g ∷ gs) nodes in
    let (f, e) = usable_room (g ∷ gs) nodes regions count expand h in
    (
      f,
      e,
      elim (create_plan-all_room current (keep_usable (g ∷ gs) regions) count expand f e p) [
        | inl (q, plan, made, total, fits) ↦ inl (q, plan, rw made refl, total, fits)
        | inr (q, made) ↦ inr (q, rw (made, as_outcome) refl)
      ],
    )
