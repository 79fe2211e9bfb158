-- ===== src/Policies/Deletion/Regions.antt =====
-- The region policy and the deletion policy together: the victims of a planned deletion.
use senlin.Prelude.{
  ℕ, zero, suc, ◌≤◌, ◌≡◌, refl, sym, ap, ◌∙◌, inl, inr, true, false, Option, some, List, [], ◌∷◌,
  ◌++◌, All, arith, contains, length, length-append, >>=-eq-some, Bool-cases, leb,
}
use senlin.Prelude.Int.{ℤ, pos, negsuc, ◌+ℤ◌, ◌*ℤ◌, ◌≤ℤ◌, ◌<ℤ◌, eq_of_parts, +ℤ_parts, -ℤ_parts}
use senlin.Node.{Node}
use senlin.Scaling.Victims.Random.{InRange}
use senlin.Scaling.Victims.Sorting.{insert_by, sort_by}
use senlin.Engine.Cluster.{get_region_distribution, nodes_by_region}
use senlin.Engine.Cluster.Health.{get_region_distribution_lem}
use senlin.Policies.Deletion.{Criteria, victims_by, victims_by_regions}
use senlin.Policies.Deletion.Counts.{pick_victims-Counted}
use senlin.Policies.Placement.{
  Region, floor_by, floor_quotient, by_weight, sum_weights, total_after, headroom, placed,
}
use senlin.Policies.Placement.Filling.{sum_plan, IsPlaced}
use senlin.Policies.Placement.Plans.{room_for}
use senlin.Policies.Placement.Check.{Placing, deletes, as_outcome, keep_usable, place_regions}
use senlin.Policies.Placement.Check.Outcome.{place_regions_lem, All-by_weight, keep_usable-contains}

-- The count of an item is a number of nodes that the members of its key have.
abbrev IsAvailable : (ℕ → List Node) → ℕ × ℤ → Type 0
IsAvailable members item = (c : ℕ) × (item.1 ≡ pos c) × (c ≤ length (members item.0))

victims_by_lem :
    (draw : ℕ → ℕ → ℕ → ℕ) (criteria : Criteria) (members : ℕ → List Node) (plan : List (ℕ × ℤ))
    → ((key : ℕ) → InRange (draw key))
    → All (IsAvailable members) plan
    → (ids : List ℕ) × (victims_by draw criteria members plan ≡ some ids)
      × (pos (length ids) ≡ sum_plan plan)
unfolding victims_by
victims_by_lem draw criteria members [] in_range h = ([], refl, refl)
victims_by_lem draw criteria members ((key, n) ∷ plan) in_range ((c, e, fits), h) =
    let (ids, e1, l1) =
      pick_victims-Counted (draw key) (in_range key) (members key) c fits criteria in
    let (others, e2, l2) = victims_by_lem draw criteria members plan in_range h in
    (
      ids ++ others,
      rw (e, e1, e2) refl,
      eq_of_parts _ _
          (ground (arith, e, l1, l2, length-append ids others, +ℤ_parts n (sum_plan plan))),
    )

-- Sorting the items changes neither their sum nor what holds of all of them.
module _ (P : ℕ × ℤ → Type 0) where
  insert_by-sum :
      (x : ℕ × ℤ) (l : List (ℕ × ℤ)) → sum_plan (insert_by (λ item. item.0) x l) ≡ x.1 +ℤ sum_plan l
  unfolding insert_by
  insert_by-sum x [] = refl
  insert_by-sum x (y ∷ l) = elim (Bool-cases (leb x.0 y.0)) [
    | inl first ↦ rw first
    | inr later ↦
        rw (later, insert_by-sum x l)
          (eq_of_parts _ _ (
            omega (
              arith,
              +ℤ_parts x.1 (sum_plan l),
              +ℤ_parts y.1 (x.1 +ℤ sum_plan l),
              +ℤ_parts y.1 (sum_plan l),
              +ℤ_parts x.1 (y.1 +ℤ sum_plan l),
            )))
  ]

  sort_by-sum : (l : List (ℕ × ℤ)) → sum_plan (sort_by (λ item. item.0) l) ≡ sum_plan l
  unfolding sort_by
  sort_by-sum [] = refl
  sort_by-sum (x ∷ l) =
      insert_by-sum x (sort_by (λ item. item.0) l) ∙ ap (λ s. x.1 +ℤ s) (sort_by-sum l)

  insert_by-All :
      (x : ℕ × ℤ) (l : List (ℕ × ℤ)) → P x → All P l → All P (insert_by (λ item. item.0) x l)
  unfolding insert_by
  insert_by-All x [] h hs = (h, tt)
  insert_by-All x (y ∷ l) h hs = elim (Bool-cases (leb x.0 y.0)) [
    | inl first ↦ rw first (h, hs)
    | inr later ↦ rw later (hs.0, insert_by-All x l h hs.1)
  ]

  sort_by-All : (l : List (ℕ × ℤ)) → All P l → All P (sort_by (λ item. item.0) l)
  unfolding sort_by
  sort_by-All [] h = tt
  sort_by-All (x ∷ l) h = insert_by-All x (sort_by (λ item. item.0) l) h.0 (sort_by-All l h.1)

mul_nonneg : (a b : ℤ) → pos 0 ≤ℤ a → pos 0 ≤ℤ b → pos 0 ≤ℤ a *ℤ b
unfolding ◌*ℤ◌
mul_nonneg (pos a) (pos b) h k = ground arith
mul_nonneg (pos a) (negsuc b) h k = absurd (omega (arith, k))
mul_nonneg (negsuc a) b h k = absurd (omega (arith, h))

floor_quotient-nonneg :
    (a b q : ℤ) → pos 0 ≤ℤ a → pos 0 <ℤ b → floor_quotient a b ≡ some q → pos 0 ≤ℤ q
unfolding floor_quotient floor_by
floor_quotient-nonneg (pos a) (pos zero) q h k e = absurd (omega (arith, k))
floor_quotient-nonneg (pos a) (pos (suc b)) q h k e = ground (arith, e)
floor_quotient-nonneg (pos a) (negsuc b) q h k e = absurd (omega (arith, k))
floor_quotient-nonneg (negsuc a) b q h k e = absurd (omega (arith, h))

-- A region loses no more nodes than it has.
headroom_within :
    (total sum_weight : ℤ) (r : Region) (here : ℕ) (free n : ℤ)
    → pos 0 ≤ℤ total
    → pos 0 ≤ℤ r.weight
    → pos 0 <ℤ sum_weight
    → headroom false total sum_weight r here ≡ some free
    → n ≤ℤ free
    → n ≤ℤ pos here
unfolding headroom
headroom_within total sum_weight r here free n t w s e h =
    let (q, e0, e1) = >>=-eq-some (floor_quotient (total *ℤ r.weight) sum_weight) _ e in
    let k =
      floor_quotient-nonneg (total *ℤ r.weight) sum_weight q (mul_nonneg total r.weight t w) s e0 in
    ground (arith, h, k, e1, -ℤ_parts (pos here) q)

module _ (g : ℕ) (gs : List ℕ) (regions : List Region) (nodes : List Node) (count : ℤ)
    (heavy : pos 0 <ℤ sum_weights (keep_usable (g ∷ gs) regions))
    (left : pos 0 ≤ℤ total_after false count (get_region_distribution (g ∷ gs) nodes)) where
  abbrev members : ℕ → List Node
  members r = nodes_by_region r nodes

  abbrev room : Region → ℕ → Option ℤ
  room =
      room_for (get_region_distribution (g ∷ gs) nodes) (keep_usable (g ∷ gs) regions) count false

  IsAvailable-of :
      (k : ℕ) (n : ℤ) → pos 0 <ℤ n → n ≤ℤ pos (length (members k)) → IsAvailable members (k, n)
  IsAvailable-of k (pos c) p h = (c, refl, omega (arith, h))
  IsAvailable-of k (negsuc c) p h = absurd (omega (arith, p))

  item-IsAvailable :
      (rs : List Region) (item : ℕ × ℤ)
      → All (λ r. pos 0 ≤ℤ r.weight) rs
      → All (λ r. contains (g ∷ gs) r.name ≡ true) rs
      → IsPlaced room (get_region_distribution (g ∷ gs) nodes) rs item
      → IsAvailable members item
  item-IsAvailable [] item w u h = absurd h
  item-IsAvailable (r ∷ rs) (k, n) w u (inl (e, (here, free, e0, e1, p, q))) =
      let within = headroom_within _ _ r here free n left w.0 heavy e1 q in
      let known = get_region_distribution_lem (g ∷ gs) nodes r.name u.0 in
      let same : here ≡ length (members r.name) = ground (arith, e0, known) in
      rw (← e) (IsAvailable-of r.name n p (rw same at within))
  item-IsAvailable (r ∷ rs) item w u (inr h) = item-IsAvailable rs item w.1 u.1 h

  plan-IsAvailable :
      (rs : List Region) (plan : List (ℕ × ℤ))
      → All (λ r. pos 0 ≤ℤ r.weight) rs
      → All (λ r. contains (g ∷ gs) r.name ≡ true) rs
      → All (IsPlaced room (get_region_distribution (g ∷ gs) nodes) rs) plan
      → All (IsAvailable members) plan
  plan-IsAvailable rs [] w u h = tt
  plan-IsAvailable rs (item ∷ plan) w u h =
      (item-IsAvailable rs item w u h.0, plan-IsAvailable rs plan w u h.1)

deletes_only :
    (count : ℤ) (plan plan' : List (ℕ × ℤ))
    → ◌≡◌ {A = Option Placing}
        (some (as_outcome false count (placed plan')))
        (some (deletes count plan))
    → plan' ≡ plan
unfolding as_outcome
deletes_only count plan [] e = ground (arith, e)
deletes_only count plan (item ∷ plan') e = ground (arith, e)

-- Where the region policy plans the deletion of a positive count of nodes from regions with weights
-- that are not negative and not all zero, and no more than they hold, the deletion policy finds by
-- every criterion and with random numbers in range exactly that many victims for the plan.
pub place_regions-victims_by_regions :
    (draw : ℕ → ℕ → ℕ → ℕ) (criteria : Criteria) (g : ℕ) (gs : List ℕ) (regions : List Region)
    (nodes : List Node) (count : ℤ) (plan : List (ℕ × ℤ))
    → ((key : ℕ) → InRange (draw key))
    → All (λ r. pos 0 ≤ℤ r.weight) (keep_usable (g ∷ gs) regions)
    → pos 0 <ℤ sum_weights (keep_usable (g ∷ gs) regions)
    → pos 0 ≤ℤ total_after false count (get_region_distribution (g ∷ gs) nodes)
    → pos 0 <ℤ count
    → place_regions (g ∷ gs) regions nodes count false ≡ some (deletes count plan)
    → (ids : List ℕ) × (victims_by_regions draw criteria nodes plan ≡ some ids)
      × (pos (length ids) ≡ count)
unfolding victims_by_regions
place_regions-victims_by_regions draw criteria g gs regions nodes count plan in_range w heavy left p
      e =
    let nonzero : ¬ (sum_weights (keep_usable (g ∷ gs) regions) ≡ pos 0) =
      λ z. absurd (ground (arith, z, heavy)) in
    let (f, room_known, answer) = place_regions_lem g gs regions nodes count false nonzero p in
    elim answer [
      | inl (enough, plan', made, total, fits) ↦
          let same = deletes_only count plan plan' (sym made ∙ e) in
          let rs = keep_usable (g ∷ gs) regions in
          let available =
            plan-IsAvailable g gs regions nodes count heavy left (by_weight false rs) plan'
              (All-by_weight _ false rs w)
              (All-by_weight _ false rs (keep_usable-contains (g ∷ gs) regions)) fits in
          let members : ℕ → List Node = λ r. nodes_by_region r nodes in
          let sorted = sort_by-All (IsAvailable members) plan' available in
          let (ids, found, size) =
            victims_by_lem draw criteria members (sort_by (λ item. item.0) plan') in_range sorted in
          (ids, rw (← same) found, size ∙ sort_by-sum (IsAvailable members) plan' ∙ total)
      | inr (short, made) ↦ absurd (ground (arith, made, e))
    ]
