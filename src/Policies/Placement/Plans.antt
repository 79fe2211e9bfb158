-- ===== src/Policies/Placement/Plans.antt =====
-- The plan of a placement policy: when there is one, and what it gives to each region.
use senlin.Prelude.{
  ℕ, ◌≡◌, refl, ap, ◌∙◌, ◌⊎◌, inl, inr, Bool, true, Option, some, List, [], ◌∷◌, All, arith,
  >>=-eq-some,
}
use senlin.Prelude.Int.{
  ℤ, pos, ◌+ℤ◌, ◌-ℤ◌, ◌*ℤ◌, ◌≤ℤ◌, ◌<ℤ◌, ltb_ℤ, eq_of_parts, +ℤ_parts, -ℤ_parts,
}
use senlin.Table.{lookup}
use senlin.Policies.Placement.{
  Region, ceil_quotient, by_weight, sum_weights, total_after, capped, headroom, positive_items,
  no_plan, placed, finish_plan, create_plan,
}
use senlin.Policies.Placement.Filling.{sum_plan, all_room, IsPlaced, Covers, fill-Fills}

module _ (room : Region → ℕ → Option ℤ) (current : List (ℕ × ℕ)) (rs : List Region) where
  IsPlaced-positive :
      (l : List Region) (item : ℕ × ℤ) → IsPlaced room current l item → pos 0 <ℤ item.1
  IsPlaced-positive [] item h = absurd h
  IsPlaced-positive (r ∷ l) item (inl (e, (here, free, e0, e1, p, q))) = p
  IsPlaced-positive (r ∷ l) item (inr h) = IsPlaced-positive l item h

  -- A plan has no items to leave out.
  positive_items_same :
      (plan : List (ℕ × ℤ)) → All (IsPlaced room current rs) plan → positive_items plan ≡ plan
  unfolding positive_items
  positive_items_same [] h = refl
  positive_items_same ((name, n) ∷ plan) h =
      let positive : ltb_ℤ (pos 0) n ≡ true = ground (arith, IsPlaced-positive rs (name, n) h.0) in
      rw (positive, positive_items_same plan h.1)

-- The rooms of the regions as `_create_plan` computes them.
abbrev pub room_for : List (ℕ × ℕ) → List Region → ℤ → Bool → Region → ℕ → Option ℤ
room_for current regions count expand =
    headroom expand (total_after expand count current) (sum_weights regions)

module _ (current : List (ℕ × ℕ)) (regions : List Region) (count : ℤ) (expand : Bool) where
  finish_plan-cases :
      (f left : ℤ) (plan : List (ℕ × ℤ))
      → All
          (IsPlaced (room_for current regions count expand) current (by_weight expand regions))
          plan
      → sum_plan plan +ℤ left ≡ count
      → Covers count f left
      → ((count ≤ℤ f)
          × (finish_plan (some (plan, left)) ≡ some (placed plan))
          × (sum_plan plan ≡ count))
        ⊎ ((f <ℤ count) × (finish_plan (some (plan, left)) ≡ some no_plan))
  unfolding finish_plan
  finish_plan-cases f left plan fits counted (inl (e, h)) = inl (
    h,
    rw (
      e,
      positive_items_same (room_for current regions count expand) current (by_weight expand regions)
          plan fits,
    ),
    eq_of_parts _ _ (ground (arith, e, counted, +ℤ_parts (sum_plan plan) left)),
  )
  finish_plan-cases f left plan fits counted (inr (h, e)) =
      let more : ltb_ℤ (pos 0) left ≡ true = ground (arith, h) in
      inr (ground (arith, h, e, +ℤ_parts left f), rw more)

-- The plan of a placement policy for a positive count exists exactly when the regions have room for
-- it, where each has its place in the distribution and the weights do not sum to zero. It then
-- assigns the count, and to each region a positive number of nodes within its room.
pub create_plan-all_room :
    (current : List (ℕ × ℕ)) (regions : List Region) (count : ℤ) (expand : Bool) (f : ℤ)
    → all_room (room_for current regions count expand) current (by_weight expand regions) ≡ some f
    → pos 0 <ℤ count
    → ((count ≤ℤ f)
        × (plan : List (ℕ × ℤ)) × (create_plan current regions count expand ≡ some (placed plan))
        × (sum_plan plan ≡ count)
        × All
            (IsPlaced (room_for current regions count expand) current (by_weight expand regions))
            plan)
      ⊎ ((f <ℤ count) × (create_plan current regions count expand ≡ some no_plan))
unfolding create_plan
create_plan-all_room current regions count expand f e p =
    let room = room_for current regions count expand in
    let (plan, left, ends, filled) =
      fill-Fills room current (by_weight expand regions) count f e p in
    elim (finish_plan-cases current regions count expand f left plan filled.fits filled.counted
      filled.over) [
        | inl (h, done, total) ↦ inl (h, plan, ap finish_plan ends ∙ done, total, filled.fits)
        | inr (h, done) ↦ inr (h, ap finish_plan ends ∙ done)
      ]

-- The regions' nodes after the plan, of an item that grows one of them.
abbrev pub IsCapped : List (ℕ × ℕ) → List Region → ℕ × ℤ → Type 0
IsCapped current [] item = ⊥
IsCapped current (r ∷ rs) item =
    ((r.name ≡ item.0)
      × (here : ℕ) × (lookup r.name current ≡ some here)
      × ((r.cap <ℤ pos 0) ⊎ (pos here +ℤ item.1 ≤ℤ r.cap)))
    ⊎ IsCapped current rs item

headroom-capped :
    (total sum_weight : ℤ) (r : Region) (here : ℕ) (free n : ℤ)
    → headroom true total sum_weight r here ≡ some free
    → n ≤ℤ free
    → (r.cap <ℤ pos 0) ⊎ (pos here +ℤ n ≤ℤ r.cap)
unfolding headroom capped
headroom-capped total sum_weight r here free n e h =
    let (quota, _, e1) = >>=-eq-some (ceil_quotient (total *ℤ r.weight) sum_weight) _ e in
    within quota e1
  where
    within :
        (quota : ℤ)
        → ◌≡◌ {A = Option ℤ} (some (capped r.cap quota -ℤ pos here)) (some free)
        → (r.cap <ℤ pos 0) ⊎ (pos here +ℤ n ≤ℤ r.cap)
    within quota e1 =
        ground (arith, e1, h, -ℤ_parts (capped r.cap quota) (pos here), +ℤ_parts (pos here) n)

module _ (current : List (ℕ × ℕ)) (regions : List Region) (count f : ℤ) where
  IsPlaced-IsCapped :
      (l : List Region) (item : ℕ × ℤ)
      → IsPlaced (room_for current regions count true) current l item
      → IsCapped current l item
  IsPlaced-IsCapped [] item h = absurd h
  IsPlaced-IsCapped (r ∷ l) item (inl (e, (here, free, e0, e1, p, q))) =
      inl (e, here, e0, headroom-capped _ _ r here free item.1 e1 q)
  IsPlaced-IsCapped (r ∷ l) item (inr h) = inr (IsPlaced-IsCapped l item h)

  All-IsCapped :
      (l : List Region) (plan : List (ℕ × ℤ))
      → All (IsPlaced (room_for current regions count true) current l) plan
      → All (IsCapped current l) plan
  All-IsCapped l [] h = tt
  All-IsCapped l (item ∷ plan) h = (IsPlaced-IsCapped l item h.0, All-IsCapped l plan h.1)

  -- Where a placement policy plans to create a positive count of nodes, no region gets more than
  -- its cap, counting the nodes that are there; a negative cap is none. Each region has its place
  -- in the distribution and the weights do not sum to zero.
  pub create_plan-IsCapped :
      (plan : List (ℕ × ℤ))
      → all_room (room_for current regions count true) current (by_weight true regions) ≡ some f
      → pos 0 <ℤ count
      → create_plan current regions count true ≡ some (placed plan)
      → All (IsCapped current (by_weight true regions)) plan
  create_plan-IsCapped plan e p made =
      elim (create_plan-all_room current regions count true f e p) [
        | inl (h, plan', done, total, fits) ↦
            let same : plan' ≡ plan = ground (arith, done, made) in
            rw (← same) (All-IsCapped (by_weight true regions) plan' fits)
        | inr (h, done) ↦ absurd (ground (arith, done, made))
      ]
