-- ===== src/Engine/Handlers/Members.antt =====
-- `do_add_nodes`, `do_del_nodes` and `do_replace_nodes` of
-- senlin/engine/actions/cluster_action.py. The sleep of the grace period is left out.
pub mod Joining
pub mod Leaving
pub mod Departure
use senlin.Prelude.{
  ℕ, Bool, true, false, Option, none, some, List, [], ◌∷◌, ◌++◌, map, length, ◌==◌, if◌then◌else◌,
  ◌>>=◌,
}
use senlin.Prelude.Int.{ℤ, pos, ◌+ℤ◌, ◌-ℤ◌}
use senlin.Db.{ActionName, node_join, node_leave}
use senlin.Node.{Node, active}
use senlin.Table.{lookup}
use senlin.Scaling.Adjust.{SizeError}
use senlin.Engine.Cluster.{eval_status}
use senlin.Engine.Results.{ActionResult}
use senlin.Engine.Handlers.{
  evaluated, World, Setting, with_desired, evaluate, start_children, delete_nodes,
}
use senlin.Engine.Handlers.Resizing.{check_new_size}

-- A node that the project of the action sees, and its cluster, if it has one.
pub record KnownNode : Type 0 where
  pub node : Node
  pub cluster_id : Option ℕ

-- The lines of the message of an error.
pub data NodeError : Type 0 where
  gone inactive not_a_member : ℕ → NodeError
  taken_by : ℕ → ℕ → NodeError

-- What a handler ends with before it has changed anything, or else its result and the world.
pub data Ending : Type 0 where
  refused_nodes : List NodeError → Ending
  refused_size : SizeError → Ending
  ended : ActionResult → World → Ending

-- `eval_status(context, operation, desired_capacity=desired)`: the parameter goes to the row only.
unfoldable pub evaluate_with : ℤ → World → World
evaluate_with desired w = record w {
  saved = with_desired desired w.saved;
  loaded = w.rows;
  status = evaluated (eval_status w.rows w.own (some desired) none none);
}

-- `node.status != "ACTIVE"`
unfoldable pub is_up : KnownNode → Bool
is_up k = elim k.node.status [ active ↦ true | _ ↦ false ]

-- The tests on a node that is to join.
unfoldable pub join_error : ℕ → Option KnownNode → Option NodeError
unfolding is_up
join_error id none = some (gone id)
join_error id (some k) = elim k.cluster_id [
  | some c ↦ some (taken_by id c)
  | none ↦ if is_up k then none else some (inactive id)
]

abbrev pub cons_if {ℓ} : {A : Type ℓ} → Option A → List A → List A
cons_if none l = l
cons_if (some a) l = a ∷ l

-- `errors`, and the nodes that passed
unfoldable pub join_errors : List (ℕ × KnownNode) → List ℕ → List NodeError
unfolding join_error
join_errors table [] = []
join_errors table (i ∷ is) = cons_if (join_error i (lookup i table)) (join_errors table is)

unfoldable pub known : List (ℕ × KnownNode) → List ℕ → List Node
known table [] = []
known table (i ∷ is) = elim (lookup i table) [
  | none ↦ known table is
  | some k ↦ k.node ∷ known table is
]

-- The end of `do_add_nodes`.
unfoldable pub after_joining : ℤ → List Node → ActionResult × World → Ending
unfolding evaluate_with
after_joining desired nodes (ActionResult.res_ok, w) =
    let w1 = evaluate_with desired w in
    ended ActionResult.res_ok (record w1 { loaded = w1.loaded ++ nodes })
after_joining desired nodes (result, w) = ended result w

-- The part of `do_add_nodes` after the checks of the nodes.
unfoldable pub join_nodes : Setting → List (ℕ × KnownNode) → List ℕ → World → Option Ending
unfolding known after_joining check_new_size
join_nodes setting table ids w =
    let desired = pos (length w.rows) +ℤ pos (length ids) in
    let nodes = known table ids in
    let go = (do
      waited ← setting.wait (start_children node_join (map (λ n. n.id) nodes) w)
      some (after_joining desired nodes waited)) in
    elim (check_new_size setting desired w) [
      | some message ↦ some (refused_size message)
      | none ↦ go
    ]

unfoldable pub do_add_nodes : Setting → List (ℕ × KnownNode) → List ℕ → World → Option Ending
unfolding join_errors join_nodes
do_add_nodes setting table ids w =
    let go = join_nodes setting table ids w in
    elim (join_errors table ids) [ [] ↦ go | e ∷ es ↦ some (refused_nodes (e ∷ es)) ]

-- `data['deletion']`; a missing value is `none` and a null one `some none`.
pub record LeavingData : Type 0 where
  pub destroy_after_deletion : Option (Option Bool)
  pub reduce_desired_capacity : Option (Option Bool)

-- `not (value is False)`, of a value that is false where it is missing
abbrev pub is_not_false : Option (Option Bool) → Bool
is_not_false none = false
is_not_false (some none) = true
is_not_false (some (some b)) = b

-- A value that is true where it is missing; a null is falsy.
abbrev pub is_truthy : Option (Option Bool) → Bool
is_truthy none = true
is_truthy (some none) = false
is_truthy (some (some b)) = b

-- `destroy_after_deletion`, from the data if there are any, or else from the inputs, with the test
-- `destroy is False` of `_delete_nodes`.
unfoldable pub destroys_members : Option LeavingData → Option (Option Bool) → Bool
destroys_members none input = is_not_false input
destroys_members (some pd) input = is_not_false pd.destroy_after_deletion

unfoldable pub reduces : Option LeavingData → Bool
reduces none = true
reduces (some pd) = is_truthy pd.reduce_desired_capacity

-- `errors` of `do_del_nodes`
unfoldable pub leave_errors : List (ℕ × KnownNode) → List ℕ → List NodeError
leave_errors table [] = []
leave_errors table (i ∷ is) = elim (lookup i table) [
  | none ↦ gone i ∷ leave_errors table is
  | some k ↦ leave_errors table is
]

-- `node.cluster_id == self.target`
unfoldable pub is_in_target : ℕ → KnownNode → Bool
is_in_target target k = elim k.cluster_id [ none ↦ false | some c ↦ c == target ]

-- The candidates that are left when those of other clusters have been removed.
unfoldable pub members_of : ℕ → List (ℕ × KnownNode) → List ℕ → List ℕ
unfolding is_in_target
members_of target table [] = []
members_of target table (i ∷ is) =
    let rest = members_of target table is in
    elim (lookup i table) [
      | none ↦ i ∷ rest
      | some k ↦ if is_in_target target k then i ∷ rest else rest
    ]

-- The end of `do_del_nodes`.
unfoldable pub after_leaving : Bool → ℤ → ActionResult × World → Ending
unfolding evaluate_with
after_leaving true desired (result, w) = ended result (evaluate_with desired w)
after_leaving false desired (result, w) = ended result (evaluate w)

-- The part of `do_del_nodes` after the checks of the nodes.
unfoldable pub leave_nodes :
    Setting → Option LeavingData → Option (Option Bool) → List ℕ → World → Option Ending
unfolding destroys_members reduces after_leaving check_new_size
leave_nodes setting pd input [] w = some (ended ActionResult.res_ok w)
leave_nodes setting pd input (i ∷ is) w =
    let desired = pos (length w.rows) -ℤ pos (length (i ∷ is)) in
    let go = (do
      left ← delete_nodes setting (destroys_members pd input) (i ∷ is) w
      some (after_leaving (reduces pd) desired left)) in
    elim (check_new_size setting desired w) [
      | some message ↦ some (refused_size message)
      | none ↦ go
    ]

unfoldable pub do_del_nodes :
    Setting
    → ℕ
    → List (ℕ × KnownNode)
    → Option LeavingData
    → Option (Option Bool)
    → List ℕ
    → World
    → Option Ending
unfolding leave_errors members_of leave_nodes
do_del_nodes setting target table pd input candidates w =
    let go = leave_nodes setting pd input (members_of target table candidates) w in
    elim (leave_errors table candidates) [ [] ↦ go | e ∷ es ↦ some (refused_nodes (e ∷ es)) ]

-- The tests on an original and its replacement.
unfoldable pub pair_error : ℕ → ℕ → ℕ → Option KnownNode → Option KnownNode → Option NodeError
unfolding is_in_target join_error
pair_error target original replacement none new = some (gone original)
pair_error target original replacement (some old) none = some (gone replacement)
pair_error target original replacement (some old) (some new) =
    if is_in_target target old
    then join_error replacement (some new)
    else some (not_a_member original)

unfoldable pub pair_errors : ℕ → List (ℕ × KnownNode) → List (ℕ × ℕ) → List NodeError
unfolding pair_error
pair_errors target table [] = []
pair_errors target table ((o, r) ∷ rest) =
    cons_if (pair_error target o r (lookup o table) (lookup r table))
      (pair_errors target table rest)

-- The derived actions of each pair, in the order in which they are made ready.
unfoldable pub start_pairs : List (ℕ × ℕ) → List (ActionName × ℕ)
start_pairs [] = []
start_pairs ((o, r) ∷ rest) = (node_join, r) ∷ (node_leave, o) ∷ start_pairs rest

-- The wait, for a map that is not empty. What `remove_node` and `add_node` do to the nodes that the
-- object holds is undone by `eval_status`, which loads them anew.
unfoldable pub replace_pairs : Setting → List (ℕ × ℕ) → World → Option Ending
unfolding start_pairs evaluate
replace_pairs setting [] w = some (ended ActionResult.res_ok (evaluate w))
replace_pairs setting (p ∷ ps) w = do
  (result, w') ← setting.wait (record w { started = w.started ++ start_pairs (p ∷ ps) })
  some (ended result (evaluate w'))

unfoldable pub do_replace_nodes :
    Setting → ℕ → List (ℕ × KnownNode) → List (ℕ × ℕ) → World → Option Ending
unfolding pair_errors replace_pairs
do_replace_nodes setting target table pairs w =
    let go = replace_pairs setting pairs w in
    elim (pair_errors target table pairs) [ [] ↦ go | e ∷ es ↦ some (refused_nodes (e ∷ es)) ]
