-- ===== src/Engine/Handlers/Resizing.antt =====
-- `do_resize`, `_update_cluster_size`, `do_scale_out` and `do_scale_in` of
-- senlin/engine/actions/cluster_action.py, and `get_positive_int` of senlin/common/utils.py. The
-- sleep of the grace period is left out.
use senlin.Prelude.{ℕ, Bool, true, Option, none, some, List, [], ◌∷◌, length, if◌then◌else◌, ◌>>=◌}
use senlin.Prelude.Int.{ℤ, pos, ◌+ℤ◌, ◌-ℤ◌, ltb_ℤ}
use senlin.Scaling.Adjust.{
  SizeError, ResizeInputs, ResizeResult, res_ok, res_error, deletion, creation, check_size_params,
  parse_resize_params,
}
use senlin.Scaling.Victims.{nodes_by_random}
use senlin.Node.{Node}
use senlin.Engine.Results.{ActionResult}
use senlin.Engine.Handlers.{
  World, Setting, set_resizing, with_desired, evaluate, delete_nodes, Placements, create_nodes,
}

-- `action.data['deletion']`
pub record DeletionData : Type 0 where
  pub picked : List ℕ
  pub count : Option ℤ
  pub destroy_after_deletion : Bool

-- `destroy_after_deletion` of the data, which is true where it is missing.
unfoldable pub destroys : Option DeletionData → Bool
destroys none = true
destroys (some pd) = pd.destroy_after_deletion

-- `get_positive_int`, of an input that is an integer, or is none (`none`); a missing input is 1.
unfoldable pub positive_input : Option ℤ → Option ℤ
positive_input none = none
positive_input (some n) = if ltb_ℤ (pos 0) n then some n else none

-- What a handler ends with before it has changed anything, or else its result and the world.
pub data Refusal : Type 0 where
  invalid_count : Refusal
  bad_size : SizeError → Refusal

pub data Handled : Type 0 where
  refused : Refusal → Handled
  done : ActionResult → World → Handled

-- The end of each handler.
unfoldable pub wind_up : ActionResult × World → Handled
unfolding evaluate
wind_up (result, w) = done result (evaluate w)

-- Victims that are not already picked are drawn.
unfoldable pub candidates_or : Setting → List ℕ → List Node → ℤ → Option (List ℕ)
candidates_or setting [] nodes count = nodes_by_random setting.draw nodes count
candidates_or setting (i ∷ is) nodes count = some (i ∷ is)

-- The part of `do_scale_in` after the checks.
unfoldable pub shrink : Setting → Option DeletionData → List ℕ → ℤ → ℤ → World → Option Handled
unfolding set_resizing candidates_or delete_nodes destroys wind_up
shrink setting pd candidates count new_size w =
    let w1 = set_resizing (with_desired new_size) w in
    do
      victims ← candidates_or setting candidates w1.loaded count
      ended ← delete_nodes setting (destroys pd) victims w1
      some (wind_up ended)

-- `check_size_params(self.entity, new_size, None, None, True)`
unfoldable pub check_new_size : Setting → ℤ → World → Option SizeError
check_new_size setting new_size w =
    check_size_params setting.max_nodes (some w.own) (some new_size) none none true

unfoldable pub scale_in_by : Setting → Option DeletionData → List ℕ → ℤ → World → Option Handled
unfolding shrink check_new_size
scale_in_by setting pd candidates count w =
    let curr_size = pos (length w.rows) in
    let trimmed = if ltb_ℤ curr_size count then curr_size else count in
    let go = shrink setting pd candidates trimmed (curr_size -ℤ trimmed) w in
    elim (check_new_size setting (curr_size -ℤ trimmed) w) [
      | some message ↦ some (refused (bad_size message))
      | none ↦ go
    ]

-- `len(candidates) or pd['count']`
unfoldable pub decided_count : DeletionData → Option ℤ
decided_count pd = elim pd.picked [ [] ↦ pd.count | _ ∷ _ ↦ some (pos (length pd.picked)) ]

unfoldable pub do_scale_in : Setting → Option DeletionData → Option ℤ → World → Option Handled
unfolding scale_in_by decided_count positive_input
do_scale_in setting (some pd) input w = do
  count ← decided_count pd
  scale_in_by setting (some pd) pd.picked count w
do_scale_in setting none input w = elim (positive_input input) [
  | none ↦ some (refused invalid_count)
  | some count ↦ scale_in_by setting none [] count w
]

-- The part of `do_scale_out` after its count is known.
unfoldable pub grow : Setting → Placements → ℤ → ℤ → World → Option Handled
unfolding set_resizing create_nodes wind_up
grow setting placements count new_size w = do
  ended ← create_nodes setting placements count (set_resizing (with_desired new_size) w)
  some (wind_up ended)

unfoldable pub scale_out_by : Setting → Placements → ℤ → World → Option Handled
unfolding grow check_new_size
scale_out_by setting placements count w =
    let new_size = pos (length w.rows) +ℤ count in
    let go = grow setting placements count new_size w in
    elim (check_new_size setting new_size w) [
      | some message ↦ some (refused (bad_size message))
      | none ↦ go
    ]

-- `pd.get('count', 1)`
unfoldable pub count_or_one : Option ℤ → ℤ
count_or_one none = pos 1
count_or_one (some n) = n

unfoldable pub do_scale_out :
    Setting → Option (Option ℤ) → Placements → Option ℤ → World → Option Handled
unfolding scale_out_by count_or_one positive_input
do_scale_out setting (some pd) placements input w =
    scale_out_by setting placements (count_or_one pd) w
do_scale_out setting none placements input w = elim (positive_input input) [
  | none ↦ some (refused invalid_count)
  | some count ↦ scale_out_by setting placements count w
]

-- `_update_cluster_size`
unfoldable pub given_or : Option ℤ → ℤ → ℤ
given_or none old = old
given_or (some n) old = n

unfoldable pub update_cluster_size : ResizeInputs → ℤ → World → World
unfolding given_or set_resizing
update_cluster_size inputs desired w =
    set_resizing
      (λ sizes. record sizes {
        min_size = given_or inputs.min_size sizes.min_size;
        max_size = given_or inputs.max_size sizes.max_size;
        desired_capacity = desired;
      })
      w

-- The branch of `do_resize` for a deletion, and the one for a creation.
unfoldable pub resize_down : Setting → ResizeInputs → DeletionData → World → Option Handled
unfolding candidates_or update_cluster_size delete_nodes wind_up
resize_down setting inputs pd w = do
  count ← pd.count
  victims ← candidates_or setting pd.picked w.loaded count
  ended ←
      delete_nodes setting pd.destroy_after_deletion victims
        (update_cluster_size inputs (pos (length w.rows) -ℤ count) w)
  some (wind_up ended)

unfoldable pub resize_up : Setting → ResizeInputs → Placements → Option ℤ → World → Option Handled
unfolding update_cluster_size create_nodes wind_up
resize_up setting inputs placements n w = do
  count ← n
  ended ←
      create_nodes setting placements count
        (update_cluster_size inputs (pos (length w.rows) +ℤ count) w)
  some (wind_up ended)

-- What `parse_resize_params` decides, where no policy has.
unfoldable pub resize_parsed :
    Setting → ResizeInputs → Placements → ResizeResult → World → Option Handled
unfolding resize_down resize_up
resize_parsed setting inputs placements (res_error message) w = some (refused (bad_size message))
resize_parsed setting inputs placements (res_ok (deletion n)) w =
    resize_down setting inputs
      (record { picked = []; count = some (pos n); destroy_after_deletion = true }) w
resize_parsed setting inputs placements (res_ok (creation n)) w =
    resize_up setting inputs placements (some (pos n)) w

unfoldable pub do_resize :
    Setting
    → ResizeInputs
    → Option DeletionData
    → Option (Option ℤ)
    → Placements
    → World
    → Option Handled
unfolding resize_down resize_up resize_parsed
do_resize setting inputs (some pd) creation_data placements w = resize_down setting inputs pd w
do_resize setting inputs none (some n) placements w = resize_up setting inputs placements n w
do_resize setting inputs none none placements w =
    resize_parsed setting inputs placements
      (parse_resize_params setting.max_nodes w.own inputs (some (pos (length w.rows)))) w
