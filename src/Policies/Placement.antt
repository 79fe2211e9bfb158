-- ===== src/Policies/Placement.antt =====
-- senlin/policies/region_placement.py and senlin/policies/zone_placement.py: how many nodes are
-- created or deleted in each region or zone. A dict is the list of its items.
-- `total * weight / float(sum_weight)` has the floor and the ceiling of the exact quotient, as long
-- as the product stays below 2 ^ 53. `none` is a raised exception.
pub mod Filling
pub mod Plans
pub mod Check
use mathlib.Core.Option
use senlin.Prelude.{
  ℕ, zero, suc, ◌+◌, ◌/◌, Bool, true, false, Option, none, some, List, [], ◌∷◌, if◌then◌else◌,
  ◌>>=◌,
}
use senlin.Prelude.Int.{ℤ, pos, negsuc, ◌+ℤ◌, ◌-ℤ◌, ◌*ℤ◌, neg, ltb_ℤ, leb_ℤ, min_ℤ}
use senlin.Table.{lookup}

-- An item of the `regions`, or of the `zones`, which have no cap: -1.
pub record Region : Type 0 where
  pub name : ℕ
  pub weight : ℤ
  pub cap : ℤ

-- `int(math.floor(a / float(b)))`, for a positive denominator `suc d`.
unfoldable pub floor_by : ℤ → ℕ → ℤ
floor_by (pos n) d = pos (n / suc d)
floor_by (negsuc n) d = negsuc (n / suc d)

unfoldable pub floor_quotient : ℤ → ℤ → Option ℤ
unfolding floor_by neg
floor_quotient a (pos zero) = none
floor_quotient a (pos (suc d)) = some (floor_by a d)
floor_quotient a (negsuc d) = some (floor_by (neg a) d)

-- `int(math.ceil(a / float(b)))`
unfoldable pub ceil_quotient : ℤ → ℤ → Option ℤ
unfolding floor_quotient
ceil_quotient a b = Option.map neg (floor_quotient (neg a) b)

-- `sorted` by the weight, descending with `reverse`; equal weights keep their order.
unfoldable pub goes_before : Bool → Region → Region → Bool
goes_before true a b = leb_ℤ b.weight a.weight
goes_before false a b = leb_ℤ a.weight b.weight

unfoldable pub put_in : Bool → Region → List Region → List Region
unfolding goes_before
put_in reverse r [] = r ∷ []
put_in reverse r (s ∷ rs) =
    let rest = put_in reverse r rs in if goes_before reverse r s then r ∷ s ∷ rs else s ∷ rest

unfoldable pub by_weight : Bool → List Region → List Region
unfolding put_in
by_weight reverse [] = []
by_weight reverse (r ∷ rs) = put_in reverse r (by_weight reverse rs)

unfoldable pub sum_weights : List Region → ℤ
sum_weights [] = pos 0
sum_weights (r ∷ rs) = r.weight +ℤ sum_weights rs

unfoldable pub sum_values : List (ℕ × ℕ) → ℕ
sum_values [] = 0
sum_values ((key, n) ∷ dist) = n + sum_values dist

-- `total`
unfoldable pub total_after : Bool → ℤ → List (ℕ × ℕ) → ℤ
unfolding sum_values
total_after true count current = count +ℤ pos (sum_values current)
total_after false count current = pos (sum_values current) -ℤ count

-- The cap, if there is one.
unfoldable pub capped : ℤ → ℤ → ℤ
capped cap quota = if leb_ℤ (pos 0) cap then min_ℤ quota cap else quota

-- `headroom` of a region with `here` nodes.
unfoldable pub headroom : Bool → ℤ → ℤ → Region → ℕ → Option ℤ
unfolding capped
headroom true total sum_weight r here = do
  quota ← ceil_quotient (total *ℤ r.weight) sum_weight
  some (capped r.cap quota -ℤ pos here)
headroom false total sum_weight r here = do
  quota ← floor_quotient (total *ℤ r.weight) sum_weight
  some (pos here -ℤ quota)

-- A plan and the number of nodes that remain.
abbrev pub Filled : Type 0
Filled = List (ℕ × ℤ) × ℤ

-- The nodes that a region takes, before those that the rest of the loop assigns.
unfoldable pub and_then : ℕ → ℤ → Option Filled → Option Filled
and_then name n none = none
and_then name n (some (plan, left)) = some ((name, n) ∷ plan, left)

-- The end of the loop's body: `rest` is the loop over the other candidates.
unfoldable pub take_from : ℤ → ℕ → ℤ → (ℤ → Option Filled) → Option Filled
unfolding and_then
take_from room name remain rest =
    let skip = rest remain in
    let fill_up = and_then name room (rest (remain -ℤ room)) in
    if leb_ℤ room (pos 0)
    then skip
    else if ltb_ℤ room remain
    then fill_up
    else some ((name, if ltb_ℤ (pos 0) remain then remain else pos 0) ∷ [], pos 0)

-- The loop over the candidates, `plan[name]` being zero where it is not set.
unfoldable pub fill : (Region → ℕ → Option ℤ) → List (ℕ × ℕ) → List Region → ℤ → Option Filled
unfolding take_from
fill room current [] remain = some ([], remain)
fill room current (r ∷ rs) remain =
    let rest = fill room current rs in
    do here ← lookup r.name current; free ← room r here; take_from free r.name remain rest

-- The items with a positive count.
unfoldable pub positive_items : List (ℕ × ℤ) → List (ℕ × ℤ)
positive_items [] = []
positive_items ((name, n) ∷ plan) =
    let rest = positive_items plan in if ltb_ℤ (pos 0) n then (name, n) ∷ rest else rest

-- What `_create_plan` returns.
pub data Plan : Type 0 where
  no_plan : Plan
  placed : List (ℕ × ℤ) → Plan

unfoldable pub finish_plan : Option Filled → Option Plan
unfolding positive_items
finish_plan none = none
finish_plan (some (plan, left)) =
    some (if ltb_ℤ (pos 0) left then no_plan else placed (positive_items plan))

-- `_create_plan`, with the distribution of the nodes that are there.
unfoldable pub create_plan : List (ℕ × ℕ) → List Region → ℤ → Bool → Option Plan
unfolding finish_plan fill headroom by_weight total_after sum_weights
create_plan current regions count expand = finish_plan (
    fill (headroom expand (total_after expand count current) (sum_weights regions)) current
      (by_weight expand regions) count)
