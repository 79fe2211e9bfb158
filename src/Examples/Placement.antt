-- ===== src/Examples/Placement.antt =====
-- Plans over two regions.
use senlin.Prelude.{ℕ, ◌≡◌, refl, ◌⊎◌, false, true, some, none, List, [], ◌∷◌, All, length, arith}
use senlin.Prelude.Int.{ℤ, pos, negsuc, ◌≤ℤ◌, ◌<ℤ◌, ◌-ℤ◌, ◌+ℤ◌, ◌*ℤ◌, neg}
use senlin.Table.{lookup}
use senlin.Node.{Node, active}
use senlin.Scaling.Victims.Random.{InRange}
use senlin.Engine.Cluster.{get_region_distribution, from_keys, count_nodes, count_node, count_in}
use senlin.Policies.Deletion.{oldest_first, victims_by_regions}
use senlin.Policies.Deletion.Regions.{place_regions-victims_by_regions}
use senlin.Policies.Placement.{
  Region, floor_by, floor_quotient, ceil_quotient, goes_before, put_in, by_weight, sum_weights,
  sum_values, total_after, capped, headroom, and_then, take_from, fill, positive_items, no_plan,
  placed, finish_plan, create_plan,
}
use senlin.Policies.Placement.Filling.{sum_plan, IsPlaced, all_room}
use senlin.Policies.Placement.Plans.{room_for, create_plan-all_room, IsCapped, create_plan-IsCapped}
use senlin.Policies.Placement.Check.{deletes, as_outcome, keep_usable, place_regions}

abbrev regions : List Region
regions =
    record { name = 1; weight = pos 1; cap = pos 4 }
    ∷ record { name = 2; weight = pos 1; cap = negsuc 0 }
    ∷ []

abbrev current : List (ℕ × ℕ)
current = (1, 2) ∷ (2, 0) ∷ []

room_is :
    all_room (room_for current regions (pos 3) true) current (by_weight true regions) ≡ some (pos 4)
unfolding headroom total_after sum_values sum_weights by_weight put_in goes_before ceil_quotient
    floor_quotient floor_by capped lookup ◌+ℤ◌ ◌-ℤ◌ ◌*ℤ◌ neg
room_is = refl

create_plan-all_room_example :
    ((pos 3 ≤ℤ pos 4)
      × (plan : List (ℕ × ℤ)) × (create_plan current regions (pos 3) true ≡ some (placed plan))
      × (sum_plan plan ≡ pos 3)
      × All
          (IsPlaced (room_for current regions (pos 3) true) current (by_weight true regions))
          plan)
    ⊎ ((pos 4 <ℤ pos 3) × (create_plan current regions (pos 3) true ≡ some no_plan))
create_plan-all_room_example =
    create_plan-all_room current regions (pos 3) true (pos 4) room_is (omega arith)

abbrev plan : List (ℕ × ℤ)
plan = (1, pos 1) ∷ (2, pos 2) ∷ []

planned : create_plan current regions (pos 3) true ≡ some (placed plan)
unfolding create_plan finish_plan fill and_then take_from positive_items headroom total_after
    sum_values sum_weights by_weight put_in goes_before ceil_quotient floor_quotient floor_by capped
    lookup ◌+ℤ◌ ◌-ℤ◌ ◌*ℤ◌ neg
planned = refl

create_plan-IsCapped_example : All (IsCapped current (by_weight true regions)) plan
create_plan-IsCapped_example =
    create_plan-IsCapped current regions (pos 3) (pos 4) plan room_is (omega arith) planned

abbrev node : ℕ → ℕ → Node
node id region = record {
  id = id;
  status = active;
  created_at = some id;
  profile_created_at = 1;
  region_name = some region;
  zone = none;
}

abbrev nodes : List Node
nodes = node 5 1 ∷ node 6 1 ∷ node 7 2 ∷ []

abbrev the_first : ℕ → ℕ → ℕ → ℕ
the_first key i n = 0

the_first-InRange : (key : ℕ) → InRange (the_first key)
the_first-InRange key i n h = h

abbrev fewer : List (ℕ × ℤ)
fewer = (1, pos 1) ∷ []

nonnegative : All (λ r. pos 0 ≤ℤ r.weight) (keep_usable (1 ∷ 2 ∷ []) regions)
unfolding keep_usable
nonnegative = (omega arith, (omega arith, tt))

heavy : pos 0 <ℤ sum_weights (keep_usable (1 ∷ 2 ∷ []) regions)
unfolding keep_usable sum_weights ◌+ℤ◌
heavy = omega arith

enough : pos 0 ≤ℤ total_after false (pos 1) (get_region_distribution (1 ∷ 2 ∷ []) nodes)
unfolding get_region_distribution from_keys count_nodes count_node count_in total_after sum_values
    ◌-ℤ◌
enough = omega arith

shrinks : place_regions (1 ∷ 2 ∷ []) regions nodes (pos 1) false ≡ some (deletes (pos 1) fewer)
unfolding place_regions as_outcome keep_usable get_region_distribution from_keys count_nodes
    count_node count_in create_plan finish_plan fill and_then take_from positive_items headroom
    total_after sum_values sum_weights by_weight put_in goes_before floor_quotient floor_by lookup
    ◌+ℤ◌ ◌-ℤ◌ ◌*ℤ◌ neg
shrinks = refl

place_regions-victims_by_regions_example :
    (ids : List ℕ) × (victims_by_regions the_first oldest_first nodes fewer ≡ some ids)
    × (pos (length ids) ≡ pos 1)
place_regions-victims_by_regions_example =
    place_regions-victims_by_regions the_first oldest_first 1 (2 ∷ []) regions nodes (pos 1) fewer
      the_first-InRange nonnegative heavy enough (omega arith) shrinks
