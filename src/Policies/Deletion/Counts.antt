-- ===== src/Policies/Deletion/Counts.antt =====
-- How many nodes the deletion policy chooses.
use senlin.Prelude.{
  ℕ, ◌≤◌, ◌<◌, ◌≡◌, inl, inr, true, false, Option, none, some, List, [], length, length-take, take,
  arith, if◌then◌else◌, leb, Bool-cases,
}
use senlin.Prelude.Int.{ℤ, pos}
use senlin.Node.{Node}
use senlin.Scaling.Adjust.{Sizes}
use senlin.Scaling.Victims.{
  select, nodes_by_age, nodes_by_profile_age, nodes_by_random, pick_by_age, pick_by_profile_age,
  pick_random,
}
use senlin.Scaling.Victims.Chosen.{
  firsts, select-within, nodes_by_age-IsChoice, nodes_by_profile_age-IsChoice,
}
use senlin.Scaling.Victims.Random.{InRange, nodes_by_random-IsChoice}
use senlin.Policies.Deletion.{
  Criteria, oldest_first, oldest_profile_first, youngest_first, random, pick_victims, at_most,
  by_count, input_count, cluster_scale_in, choose, pre_op, victims,
}

-- The selection returns that many ids.
abbrev pub Counted : Option (List ℕ) → ℕ → Type 0
Counted o c = (ids : List ℕ) × (o ≡ some ids) × (length ids ≡ c)

within-Counted :
    (nodes : List Node) (c : ℕ) (rest : ℕ → List Node → Option (List ℕ))
    → c ≤ length (firsts nodes)
    → Counted (select nodes (pos c) rest) c
within-Counted nodes c rest h = (
  take c (firsts nodes),
  select-within nodes c rest h,
  ground (arith, h, length-take c (firsts nodes)),
)

module _ (draw : ℕ → ℕ → ℕ) (in_range : InRange draw) (nodes : List Node) (c : ℕ)
    (fits : c ≤ length nodes) where
  pick_victims-within :
      (criteria : Criteria)
      → c ≤ length (firsts nodes)
      → Counted (pick_victims draw criteria nodes (pos c)) c
  unfolding pick_victims nodes_by_age nodes_by_profile_age nodes_by_random
  pick_victims-within oldest_first h = within-Counted nodes c (pick_by_age true) h
  pick_victims-within youngest_first h = within-Counted nodes c (pick_by_age false) h
  pick_victims-within oldest_profile_first h = within-Counted nodes c pick_by_profile_age h
  pick_victims-within random h = within-Counted nodes c (pick_random draw) h

  pick_victims-beyond :
      (criteria : Criteria)
      → length (firsts nodes) < c
      → Counted (pick_victims draw criteria nodes (pos c)) c
  unfolding pick_victims
  pick_victims-beyond oldest_first h =
      let (ids, e, chosen) = nodes_by_age-IsChoice nodes c h fits true in (ids, e, chosen.counted)
  pick_victims-beyond youngest_first h =
      let (ids, e, chosen) = nodes_by_age-IsChoice nodes c h fits false in (ids, e, chosen.counted)
  pick_victims-beyond oldest_profile_first h =
      let (ids, e, chosen) = nodes_by_profile_age-IsChoice nodes c h fits in
      (ids, e, chosen.counted)
  pick_victims-beyond random h =
      let (ids, e, chosen) = nodes_by_random-IsChoice draw in_range nodes c h fits in
      (ids, e, chosen.counted)

  pub pick_victims-Counted :
      (criteria : Criteria) → Counted (pick_victims draw criteria nodes (pos c)) c
  pick_victims-Counted criteria = elim (Bool-cases (leb c (length (firsts nodes)))) [
    | inl within ↦ pick_victims-within criteria (ground (arith, within))
    | inr beyond ↦ pick_victims-beyond criteria (ground (arith, beyond))
  ]

abbrev pub min_ℕ : ℕ → ℕ → ℕ
min_ℕ a b = if leb a b then a else b

-- With random numbers in range, a scale-in that brings neither candidates nor an earlier decision
-- is given as many victims as it asks for, or as there are nodes if these are fewer, by every
-- criterion.
pub pre_op_scale_in_lem :
    (max_nodes : ℤ) (draw : ℕ → ℕ → ℕ → ℕ) (criteria : Criteria) (nodes : List Node)
    (cluster : Sizes) (count : ℕ)
    → InRange (draw 0)
    → (ids : List ℕ) × (pre_op max_nodes draw criteria nodes cluster [] none
          (cluster_scale_in (some (pos count)))
        ≡ some (victims ids))
      × (length ids ≡ min_ℕ count (length nodes))
unfolding pre_op choose by_count input_count
pre_op_scale_in_lem max_nodes draw criteria nodes cluster count in_range =
    let c = min_ℕ count (length nodes) in
    let cut : at_most (pos count) (length nodes) ≡ pos c = unfold at_most in ground arith in
    let (ids, e, n) = pick_victims-Counted (draw 0) in_range nodes c (ground arith) criteria in
    (ids, rw (cut, e), n)
