-- ===== src/Policies/Placement/Filling.antt =====
-- The loop that fills the regions: when it assigns all nodes, and what a region is given.
use senlin.Prelude.{
  ℕ, ◌≡◌, refl, ◌⊎◌, inl, inr, true, false, Option, some, List, [], ◌∷◌, All, arith, if◌then◌else◌,
  ◌>>=◌, >>=-eq-some, Bool-cases,
}
use senlin.Prelude.Int.{
  ℤ, pos, ◌+ℤ◌, ◌-ℤ◌, ◌≤ℤ◌, ◌<ℤ◌, ltb_ℤ, leb_ℤ, eq_of_parts, +ℤ_parts, -ℤ_parts,
}
use senlin.Table.{lookup}
use senlin.Policies.Placement.{Region, and_then, take_from, fill}

-- The sum of the counts of a plan.
abbrev pub sum_plan : List (ℕ × ℤ) → ℤ
sum_plan [] = pos 0
sum_plan ((name, n) ∷ plan) = n +ℤ sum_plan plan

abbrev pub positive_part : ℤ → ℤ
positive_part free = if leb_ℤ free (pos 0) then pos 0 else free

-- Nothing is left and the room is enough, or something is left beyond the room.
abbrev pub Covers : ℤ → ℤ → ℤ → Type 0
Covers remain free left =
    ((left ≡ pos 0) × (remain ≤ℤ free)) ⊎ ((pos 0 <ℤ left) × (left +ℤ free ≡ remain))

counted_more : (free s left remain : ℤ) → s +ℤ left ≡ remain -ℤ free → (free +ℤ s) +ℤ left ≡ remain
counted_more free s left remain e = eq_of_parts _ _ (
    ground
      (arith, e, +ℤ_parts s left, +ℤ_parts free s, +ℤ_parts (free +ℤ s) left, -ℤ_parts remain free))

over_more :
    (free others f left remain : ℤ)
    → leb_ℤ free (pos 0) ≡ false
    → positive_part free +ℤ others ≡ f
    → Covers (remain -ℤ free) others left
    → Covers remain f left
over_more free others f left remain open_ total (inl (e, h)) =
    inl (e, ground (arith, h, open_, total, +ℤ_parts free others, -ℤ_parts remain free))
over_more free others f left remain open_ total (inr (h, e)) = inr (
  h,
  eq_of_parts _ _ (
      ground (
        arith,
        e,
        open_,
        total,
        +ℤ_parts free others,
        -ℤ_parts remain free,
        +ℤ_parts left others,
        +ℤ_parts left f,
      )),
)

counted_enough : (remain : ℤ) → (remain +ℤ pos 0) +ℤ pos 0 ≡ remain
counted_enough remain =
    eq_of_parts _ _ (ground (arith, +ℤ_parts remain (pos 0), +ℤ_parts (remain +ℤ pos 0) (pos 0)))

sum_nonneg : (free others f : ℤ) → pos 0 ≤ℤ others → positive_part free +ℤ others ≡ f → pos 0 ≤ℤ f
sum_nonneg free others f h total = ground (arith, h, total, +ℤ_parts (positive_part free) others)

over_enough :
    (free others f remain : ℤ)
    → leb_ℤ free (pos 0) ≡ false
    → ltb_ℤ free remain ≡ false
    → positive_part free +ℤ others ≡ f
    → pos 0 ≤ℤ others
    → remain ≤ℤ f
over_enough free others f remain open_ enough total h =
    ground (arith, open_, enough, total, h, +ℤ_parts free others)

module _ (room : Region → ℕ → Option ℤ) (current : List (ℕ × ℕ)) where
  -- The room of all the regions together, where each has its place in the distribution.
  abbrev pub all_room : List Region → Option ℤ
  all_room [] = some (pos 0)
  all_room (r ∷ rs) =
      let rest = all_room rs in
      do
        here ← lookup r.name current
        free ← room r here
        others ← rest
        some (positive_part free +ℤ others)

  -- A count is positive and not above the room of the region.
  abbrev pub FitsIn : Region → ℤ → Type 0
  FitsIn r n =
      (here : ℕ) × (free : ℤ) × (lookup r.name current ≡ some here)
      × (room r here ≡ some free)
      × (pos 0 <ℤ n)
      × (n ≤ℤ free)

  -- An item of a plan is for one of the regions and fits in it.
  abbrev pub IsPlaced : List Region → ℕ × ℤ → Type 0
  IsPlaced [] item = ⊥
  IsPlaced (r ∷ rs) item = ((r.name ≡ item.0) × FitsIn r item.1) ⊎ IsPlaced rs item

  -- What the loop leaves of a positive count, with that much room.
  pub record IsFilled (rs : List Region) (remain free : ℤ) (plan : List (ℕ × ℤ)) (left : ℤ)
      : Type 0 where
    pub counted : sum_plan plan +ℤ left ≡ remain
    pub over : Covers remain free left
    pub fits : All (IsPlaced rs) plan

  All-IsPlaced :
      (r : Region) (rs : List Region) (plan : List (ℕ × ℤ))
      → All (IsPlaced rs) plan
      → All (IsPlaced (r ∷ rs)) plan
  All-IsPlaced r rs [] h = tt
  All-IsPlaced r rs (item ∷ plan) h = (inr h.0, All-IsPlaced r rs plan h.1)

  -- The loop returns, and with that result.
  abbrev pub Fills : List Region → ℤ → ℤ → Type 0
  Fills rs remain free =
      (plan : List (ℕ × ℤ)) × (left : ℤ) × (fill room current rs remain ≡ some (plan, left))
      × IsFilled rs remain free plan left

  module _ (r : Region) (rs : List Region) (here : ℕ) (free others remain f : ℤ)
      (e0 : lookup r.name current ≡ some here) (e2 : room r here ≡ some free)
      (total : positive_part free +ℤ others ≡ f) (p : pos 0 <ℤ remain) (some_room : pos 0 ≤ℤ others)
      (rest : (m : ℤ) → pos 0 <ℤ m → Fills rs m others) where
    fill-full : leb_ℤ free (pos 0) ≡ true → Fills (r ∷ rs) remain f
    unfolding fill
    fill-full full =
        let (plan, left, ends, filled) = rest remain p in
        let same : others ≡ f =
          eq_of_parts _ _ (ground (arith, full, total, +ℤ_parts (pos 0) others)) in
        (
          plan,
          left,
          rw (e0, e2, take_from, full) ends,
          record {
            counted = filled.counted;
            over = rw (← same) filled.over;
            fits = All-IsPlaced r rs plan filled.fits;
          },
        )

    fill_more : leb_ℤ free (pos 0) ≡ false → ltb_ℤ free remain ≡ true → Fills (r ∷ rs) remain f
    unfolding fill and_then
    fill_more open_ more =
        let m = remain -ℤ free in
        let (plan, left, ends, filled) = rest m (ground (arith, more, -ℤ_parts remain free)) in
        let here_fits : FitsIn r free = (here, free, e0, e2, ground (arith, open_), omega arith) in
        (
          (r.name, free) ∷ plan,
          left,
          rw (e0, e2, take_from, open_, more, ends),
          record {
            counted = counted_more free (sum_plan plan) left remain filled.counted;
            over = over_more free others f left remain open_ total filled.over;
            fits = (inl (refl, here_fits), All-IsPlaced r rs plan filled.fits);
          },
        )

    fill_enough : leb_ℤ free (pos 0) ≡ false → ltb_ℤ free remain ≡ false → Fills (r ∷ rs) remain f
    unfolding fill
    fill_enough open_ enough = (
      (r.name, remain) ∷ [],
      pos 0,
      rw (e0, e2, take_from, open_, enough) (ground (arith, p)),
      record {
        counted = counted_enough remain;
        over = inl (refl, over_enough free others f remain open_ enough total some_room);
        fits = (inl (refl, (here, free, e0, e2, p, ground (arith, enough))), tt);
      },
    )

    fill_step : Fills (r ∷ rs) remain f
    fill_step = elim (Bool-cases (leb_ℤ free (pos 0))) [
      | inl full ↦ fill-full full
      | inr open_ ↦ elim (Bool-cases (ltb_ℤ free remain)) [
        | inl more ↦ fill_more open_ more
        | inr enough ↦ fill_enough open_ enough
      ]
    ]

  all_room_nonneg : (rs : List Region) (f : ℤ) → all_room rs ≡ some f → pos 0 ≤ℤ f
  all_room_nonneg [] f e = ground (arith, e)
  all_room_nonneg (r ∷ rs) f e =
      let (here, _, e1) = >>=-eq-some (lookup r.name current) _ e in
      let (free, _, e3) = >>=-eq-some (room r here) _ e1 in
      let (others, e4, e5) = >>=-eq-some (all_room rs) _ e3 in
      sum_nonneg free others f (all_room_nonneg rs others e4) (ground (arith, e5))

  -- A positive count is assigned as far as there is room.
  pub fill-Fills :
      (rs : List Region) (remain f : ℤ) → all_room rs ≡ some f → pos 0 <ℤ remain → Fills rs remain f
  unfolding fill
  fill-Fills [] remain f e p = (
    [],
    remain,
    refl,
    record {
      counted = eq_of_parts _ _ (omega (arith, +ℤ_parts (pos 0) remain));
      over = inr (p, eq_of_parts _ _ (ground (arith, e, +ℤ_parts remain f)));
      fits = tt;
    },
  )
  fill-Fills (r ∷ rs) remain f e p =
      let (here, e0, e1) = >>=-eq-some (lookup r.name current) _ e in
      let (free, e2, e3) = >>=-eq-some (room r here) _ e1 in
      let (others, e4, e5) = >>=-eq-some (all_room rs) _ e3 in
      fill_step r rs here free others remain f e0 e2 (ground (arith, e5)) p
        (all_room_nonneg rs others e4) (λ m q. fill-Fills rs m others e4 q)
