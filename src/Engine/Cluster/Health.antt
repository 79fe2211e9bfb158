-- ===== src/Engine/Cluster/Health.antt =====
-- What the status of a cluster says of its nodes, and the distribution of these over regions.
use senlin.Prelude.{
  ℕ, suc, ◌+◌, ◌≡◌, ◌↔◌, inl, inr, ◌∙◌, true, false, Option, none, some, List, [], ◌∷◌, ◌==◌,
  ==_refl, ap, contains, length, arith, if◌then◌else◌, Bool-cases,
}
use senlin.Prelude.Int.{ℤ, pos, ◌≤ℤ◌, ◌<ℤ◌}
use senlin.Node.{Node}
use senlin.Table.{lookup}
use senlin.Scaling.Adjust.{Sizes}
use senlin.Scaling.Checks.{Below}
use senlin.Engine.Cluster.{
  cs_active, cs_error, active_count, param, health, eval_status, is_in, nodes_by_region, count_in,
  count_node, count_nodes, from_keys, get_region_distribution,
}

module _ (n desired min_size max_size : ℤ) where
  health-active :
      (health n desired min_size max_size ≡ cs_active)
      ↔ ((min_size ≤ℤ n) × (desired ≤ℤ n) × Below n max_size)
  unfolding health
  health-active = ground arith

  health-error : (health n desired min_size max_size ≡ cs_error) ↔ (n <ℤ min_size)
  unfolding health
  health-error = ground arith

-- A cluster is found active exactly when its active nodes are at least its minimum size and its
-- desired capacity and not above its maximum size, if it has one, and in error exactly when they
-- are fewer than its minimum size, where the sizes given stand for those of the cluster.
pub eval_status_lem :
    (nodes : List Node) (cluster : Sizes) (desired min_size max_size : Option ℤ)
    → ((eval_status nodes cluster desired min_size max_size ≡ cs_active) ↔ (
        (param min_size cluster.min_size ≤ℤ pos (active_count nodes))
        × (param desired cluster.desired_capacity ≤ℤ pos (active_count nodes))
        × Below (pos (active_count nodes)) (param max_size cluster.max_size)))
      × ((eval_status nodes cluster desired min_size max_size ≡ cs_error)
          ↔ (pos (active_count nodes) <ℤ param min_size cluster.min_size))
unfolding eval_status
eval_status_lem nodes cluster desired min_size max_size =
    let n = pos (active_count nodes) in
    let d = param desired cluster.desired_capacity in
    let lo = param min_size cluster.min_size in
    let hi = param max_size cluster.max_size in (health-active n d lo hi, health-error n d lo hi)

lookup-count_in :
    (region k m : ℕ) (dist : List (ℕ × ℕ))
    → lookup k dist ≡ some m
    → lookup k (count_in region dist) ≡ some (if region == k then suc m else m)
unfolding lookup count_in
lookup-count_in region k m [] h = cc
lookup-count_in region k m ((r, count) ∷ dist) h = elim (Bool-cases (r == k)) [
  | inl same ↦ ground (arith, same, h)
  | inr other ↦ rw other (lookup-count_in region k m dist (rw other at h))
]

pub lookup-count_node :
    (regions : List ℕ) (o : Option ℕ) (k m : ℕ) (dist : List (ℕ × ℕ))
    → contains regions k ≡ true
    → lookup k dist ≡ some m
    → lookup k (count_node regions o dist) ≡ some (if is_in k o then suc m else m)
unfolding count_node is_in
lookup-count_node regions none k m dist listed h = h
lookup-count_node regions (some r) k m dist listed h = elim (Bool-cases (k == r)) [
  | inl same ↦
      let e : k ≡ r = ground (arith, same) in
      rw (← e, listed, lookup-count_in k k m dist h, ==_refl k)
  | inr other ↦
      let flipped : (r == k) ≡ false = ground (arith, other) in
      elim (Bool-cases (contains regions r)) [
        | inl there ↦ rw (there, other, lookup-count_in r k m dist h, flipped)
        | inr absent ↦ rw (absent, other) h
      ]
]

lookup-count_nodes :
    (regions : List ℕ) (nodes : List Node) (k m : ℕ) (dist : List (ℕ × ℕ))
    → contains regions k ≡ true
    → lookup k dist ≡ some m
    → lookup k (count_nodes regions nodes dist) ≡ some (m + length (nodes_by_region k nodes))
unfolding count_nodes nodes_by_region
lookup-count_nodes regions [] k m dist listed h = rw h (ap some (omega arith))
lookup-count_nodes regions (n ∷ ns) k m dist listed h =
    let more = lookup-count_node regions n.region_name k m dist listed h in
    lookup-count_nodes regions ns k _ (count_node regions n.region_name dist) listed more
    ∙ ap some (ground arith)

contains-again :
    (r k : ℕ) (rs : List ℕ)
    → contains rs r ≡ true
    → contains (r ∷ rs) k ≡ true
    → contains rs k ≡ true
contains-again r k rs again h = elim (Bool-cases (r == k)) [
  | inl same ↦ let e : r ≡ k = ground (arith, same) in rw (← e) again
  | inr other ↦ rw other at h
]

pub lookup-from_keys :
    (regions : List ℕ) (k : ℕ) → contains regions k ≡ true → lookup k (from_keys regions) ≡ some 0
unfolding lookup from_keys
lookup-from_keys [] k h = cc
lookup-from_keys (r ∷ rs) k h = elim (Bool-cases (contains rs r)) [
  | inl again ↦ rw again (lookup-from_keys rs k (contains-again r k rs again h))
  | inr once ↦ elim (Bool-cases (r == k)) [
    | inl same ↦ rw (once, same)
    | inr other ↦ rw (once, other) (lookup-from_keys rs k (rw other at h))
  ]
]

-- The distribution of a cluster's nodes over the regions that are asked for gives for each of these
-- the number of nodes that are placed in it.
pub get_region_distribution_lem :
    (regions : List ℕ) (nodes : List Node) (k : ℕ)
    → contains regions k ≡ true
    → lookup k (get_region_distribution regions nodes) ≡ some (length (nodes_by_region k nodes))
unfolding get_region_distribution
get_region_distribution_lem regions nodes k listed =
    lookup-count_nodes regions nodes k 0 (from_keys regions) listed
      (lookup-from_keys regions k listed)
    ∙ ap some (omega arith)
