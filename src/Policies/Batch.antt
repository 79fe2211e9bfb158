-- ===== src/Policies/Batch.antt =====
-- senlin/policies/batch_policy.py: the plan of batches for a cluster update. A batch is a Python
-- set of node ids, here the list of them in the order of the candidates.
pub mod Plan
use senlin.Prelude.{
  ℕ, zero, suc, ◌+◌, ◌/◌, Bool, true, false, ◌||◌, Option, none, some, List, [], ◌∷◌, ◌++◌, map,
  length, take, drop, if◌then◌else◌, ◌>>=◌,
}
use senlin.Prelude.Int.{ℤ, pos, negsuc, ◌-ℤ◌, ltb_ℤ, neg}
use senlin.Node.{Node}
use senlin.Scaling.Victims.{filter_error_nodes}

-- `int(math.ceil(float(total) / 2))`
unfoldable pub half_up : ℕ → ℕ
half_up total = (total + 1) / 2

-- `x == -1`
unfoldable pub is_minus_one : ℤ → Bool
is_minus_one (negsuc zero) = true
is_minus_one _ = false

-- `diff`
unfoldable pub in_excess : ℤ → ℕ → ℤ
unfolding half_up
in_excess min_in_service total =
    if ltb_ℤ min_in_service (pos total) then pos total -ℤ min_in_service else pos (half_up total)

unfoldable pub batch_size : ℤ → ℤ → ℕ → ℤ
unfolding in_excess is_minus_one
batch_size min_in_service max_batch_size total =
    let diff = in_excess min_in_service total in
    if is_minus_one max_batch_size || ltb_ℤ diff max_batch_size then diff else max_batch_size

-- `int(math.ceil(float(total) / float(batch_size)))`; `none` is the ZeroDivisionError.
unfoldable pub batch_num : ℕ → ℤ → Option ℤ
batch_num total (pos zero) = none
batch_num total (pos (suc k)) = some (pos ((total + k) / suc k))
batch_num total (negsuc k) = some (neg (pos (total / suc k)))

-- `_get_batch_size`
unfoldable pub get_batch_size : ℤ → ℤ → ℕ → Option (ℤ × ℤ)
unfolding batch_num
get_batch_size min_in_service max_batch_size total =
    let size = batch_size min_in_service max_batch_size total in
    do num ← batch_num total size; some (size, num)

-- The loop over `range(0, len(candidates), batch_size)` for a positive step, on the candidates from
-- `start` on; the fuel is the number of candidates.
unfoldable pub slices : ℕ → ℕ → List ℕ → List (List ℕ)
slices zero size l = []
slices (suc fuel) size [] = []
slices (suc fuel) size (x ∷ l) = take size (x ∷ l) ∷ slices fuel size (drop size (x ∷ l))

-- A range with a negative step from 0 up is empty; one with the step 0 is a ValueError.
unfoldable pub by_size : List ℕ → ℤ → Option (List (List ℕ))
unfolding slices
by_size l (pos zero) = none
by_size l (pos (suc k)) = some (slices (length l) (suc k) l)
by_size l (negsuc k) = some []

-- The nodes in error first, the good ones at the end.
unfoldable pub update_order : List Node → List ℕ
update_order nodes =
    let (candidates, good) = filter_error_nodes nodes in candidates ++ map (λ n. n.id) good

-- `_pick_nodes`
unfoldable pub pick_nodes : List Node → ℤ → Option (List (List ℕ))
unfolding by_size
pick_nodes nodes size = by_size (update_order nodes) size

-- `_create_plan`; `none` is a raised exception.
unfoldable pub create_plan : ℤ → ℤ → List Node → Option (List (List ℕ))
unfolding get_batch_size
create_plan min_in_service max_batch_size [] = some []
create_plan min_in_service max_batch_size (n ∷ ns) = do
  sizes ← get_batch_size min_in_service max_batch_size (length (n ∷ ns))
  pick_nodes (n ∷ ns) sizes.0
