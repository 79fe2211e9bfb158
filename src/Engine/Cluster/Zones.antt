-- ===== src/Engine/Cluster/Zones.antt =====
-- The distribution of the nodes of a cluster over the zones.
use senlin.Prelude.{
  ℕ, suc, ◌+◌, ◌≡◌, refl, ◌∙◌, ap, true, Option, none, some, List, [], ◌∷◌, contains, All,
  if◌then◌else◌, arith,
}
use senlin.Node.{Node}
use senlin.Table.{lookup}
use senlin.Engine.Cluster.{
  is_in, count_node, from_keys, count_zone, count_zones, get_zone_distribution,
}
use senlin.Engine.Cluster.Health.{lookup-count_node, lookup-from_keys}

-- The zone of a node: of its placement, or else of its details.
abbrev pub site : Option ℕ → Option ℕ → Option ℕ
site none zname = zname
site (some zone) zname = some zone

abbrev pub IsListed : List ℕ → Option ℕ → Type 0
IsListed zones none = Unit {0}
IsListed zones (some zone) = contains zones zone ≡ true

module _ (zones : List ℕ) (details : Node → Option ℕ) where
  -- The number of nodes in a zone.
  abbrev pub located : ℕ → List Node → ℕ
  located k [] = 0
  located k (n ∷ ns) =
      let rest = located k ns in if is_in k (site n.zone (details n)) then suc rest else rest

  count_zone-eq-some :
      (o zname : Option ℕ) (dist : List (ℕ × ℕ))
      → IsListed zones o
      → count_zone zones o zname dist ≡ some (count_node zones (site o zname) dist)
  unfolding count_zone count_node
  count_zone-eq-some none zname dist h = refl
  count_zone-eq-some (some zone) zname dist h = rw h

  lookup-count_zones :
      (nodes : List Node) (k m : ℕ) (dist : List (ℕ × ℕ))
      → All (λ n. IsListed zones n.zone) nodes
      → contains zones k ≡ true
      → lookup k dist ≡ some m
      → (out : List (ℕ × ℕ)) × (count_zones zones details nodes dist ≡ some out)
        × (lookup k out ≡ some (m + located k nodes))
  unfolding count_zones
  lookup-count_zones [] k m dist placed listed h = (dist, refl, rw h (ap some (omega arith)))
  lookup-count_zones (n ∷ ns) k m dist placed listed h =
      let more = lookup-count_node zones (site n.zone (details n)) k m dist listed h in
      let (out, e, found) = lookup-count_zones ns k _ _ placed.1 listed more in
      (
        out,
        rw (count_zone-eq-some n.zone (details n) dist placed.0) e,
        found ∙ ap some (ground arith),
      )

-- Where every zone that a node is placed in is among those asked for, the distribution over these
-- zones raises no exception and gives for each the number of nodes in it, by their placement or, if
-- they have none, by their details.
pub get_zone_distribution_lem :
    (zones : List ℕ) (details : Node → Option ℕ) (nodes : List Node) (k : ℕ)
    → All (λ n. IsListed zones n.zone) nodes
    → contains zones k ≡ true
    → (dist : List (ℕ × ℕ)) × (get_zone_distribution zones details nodes ≡ some dist)
      × (lookup k dist ≡ some (located zones details k nodes))
unfolding get_zone_distribution
get_zone_distribution_lem zones details nodes k placed listed =
    let (dist, e, found) =
      lookup-count_zones zones details nodes k 0 (from_keys zones) placed listed
        (lookup-from_keys zones k listed) in
    (dist, e, found ∙ ap some (omega arith))
