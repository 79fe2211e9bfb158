-- ===== src/Engine/Cluster.antt =====
-- The `Cluster` class of senlin/engine/cluster.py: `eval_status`, and the nodes by their placement.
pub mod Health
pub mod Zones
use senlin.Prelude.{
  ℕ, suc, ◌+◌, Bool, true, false, not, ◌&&◌, ◌||◌, Option, none, some, List, [], ◌∷◌, ◌==◌,
  contains, if◌then◌else◌, ◌>>=◌,
}
use senlin.Prelude.Int.{ℤ, pos, ltb_ℤ, leb_ℤ}
use senlin.Node.{Node, active}
use senlin.Scaling.Adjust.{Sizes}

-- The statuses that `eval_status` sets.
pub data ClusterHealth : Type 0 where
  cs_active cs_warning cs_error : ClusterHealth

-- `node.status == 'ACTIVE'`
unfoldable pub is_active : Node → Bool
is_active n = elim n.status [ active ↦ true | _ ↦ false ]

unfoldable pub active_count : List Node → ℕ
unfolding is_active
active_count [] = 0
active_count (n ∷ ns) = let rest = active_count ns in if is_active n then suc rest else rest

-- `params.get(name, default)`
unfoldable pub param : Option ℤ → ℤ → ℤ
param none default = default
param (some v) default = v

-- The tests, for the number of active nodes and the three sizes.
unfoldable pub health : ℤ → ℤ → ℤ → ℤ → ClusterHealth
health active_count desired min_size max_size =
    if ltb_ℤ active_count min_size
    then cs_error
    else if ltb_ℤ active_count desired
    then cs_warning
    else if ltb_ℤ max_size (pos 0) || leb_ℤ active_count max_size
    then cs_active
    else cs_warning

-- The status that `eval_status` saves, for the nodes of the cluster in the database and the
-- parameters that are given.
unfoldable pub eval_status : List Node → Sizes → Option ℤ → Option ℤ → Option ℤ → ClusterHealth
unfolding active_count param health
eval_status nodes cluster desired min_size max_size =
    health (pos (active_count nodes)) (param desired cluster.desired_capacity)
      (param min_size cluster.min_size) (param max_size cluster.max_size)

-- `nodes_by_region`
unfoldable pub is_in : ℕ → Option ℕ → Bool
is_in region none = false
is_in region (some r) = region == r

unfoldable pub nodes_by_region : ℕ → List Node → List Node
unfolding is_in
nodes_by_region region [] = []
nodes_by_region region (n ∷ ns) =
    let rest = nodes_by_region region ns in if is_in region n.region_name then n ∷ rest else rest

-- `get_region_distribution`: `dist[region] += 1`
unfoldable pub count_in : ℕ → List (ℕ × ℕ) → List (ℕ × ℕ)
count_in region [] = []
count_in region ((r, count) ∷ dist) =
    (r, if r == region then suc count else count) ∷ count_in region dist

-- The body of the loop.
unfoldable pub count_node : List ℕ → Option ℕ → List (ℕ × ℕ) → List (ℕ × ℕ)
unfolding count_in
count_node regions none dist = dist
count_node regions (some region) dist =
    if contains regions region then count_in region dist else dist

unfoldable pub count_nodes : List ℕ → List Node → List (ℕ × ℕ) → List (ℕ × ℕ)
unfolding count_node
count_nodes regions [] dist = dist
count_nodes regions (n ∷ ns) dist = count_nodes regions ns (count_node regions n.region_name dist)

-- `dict.fromkeys(regions, 0)`
unfoldable pub from_keys : List ℕ → List (ℕ × ℕ)
from_keys [] = []
from_keys (r ∷ rs) = let rest = from_keys rs in if contains rs r then rest else (r, 0) ∷ rest

unfoldable pub get_region_distribution : List ℕ → List Node → List (ℕ × ℕ)
unfolding from_keys count_nodes
get_region_distribution regions nodes = count_nodes regions nodes (from_keys regions)

-- `nodes_by_zone`
unfoldable pub nodes_by_zone : ℕ → List Node → List Node
unfolding is_in
nodes_by_zone zone [] = []
nodes_by_zone zone (n ∷ ns) =
    let rest = nodes_by_zone zone ns in if is_in zone n.zone then n ∷ rest else rest

-- The body of the loop of `get_zone_distribution`, with `zname` for the zone in the details of the
-- node; `none` is the KeyError of a zone that is not asked for.
unfoldable pub count_zone : List ℕ → Option ℕ → Option ℕ → List (ℕ × ℕ) → Option (List (ℕ × ℕ))
count_zone zones none zname dist = some (count_node zones zname dist)
count_zone zones (some zone) zname dist =
    if contains zones zone then some (count_in zone dist) else none

unfoldable pub count_zones :
    List ℕ → (Node → Option ℕ) → List Node → List (ℕ × ℕ) → Option (List (ℕ × ℕ))
unfolding count_zone
count_zones zones details [] dist = some dist
count_zones zones details (n ∷ ns) dist = do
  counted ← count_zone zones n.zone (details n) dist
  count_zones zones details ns counted

-- `get_zone_distribution`, with `details` for what the profile of a node reports.
unfoldable pub get_zone_distribution :
    List ℕ → (Node → Option ℕ) → List Node → Option (List (ℕ × ℕ))
unfolding count_zones
get_zone_distribution zones details nodes = count_zones zones details nodes (from_keys zones)
