-- ===== src/Engine/Handlers/Members/Leaving.antt =====
-- What `do_del_nodes` does, on each of its branches.
use senlin.Prelude.{
  ℕ, ◌≡◌, ◌≢◌, refl, sym, ap, ◌∙◌, ◌++◌, map, subst, ◌⊎◌, inl, inr, Bool, true, false, Option, none,
  some, List, [], ◌∷◌, length, Option-cases, Bool-cases, arith,
}
use senlin.Prelude.Int.{ℤ, pos, ◌-ℤ◌}
use senlin.Table.{lookup}
use senlin.Scaling.Adjust.{SizeError}
use senlin.Engine.Results.{ActionResult}
use senlin.Engine.Handlers.{
  World, Setting, start_children, evaluated, delete_action, after_deletion,
}
use senlin.Engine.Handlers.Resizing.{check_new_size}
use senlin.Engine.Handlers.ScaleIn.{Returns, delete_nodes-some}
use senlin.Engine.Handlers.NewSize.{
  FitsIn, Misfit, check_new_size-FitsIn, check_new_size-Misfit, re_evaluated,
}
use senlin.Engine.Cluster.{eval_status}
use senlin.Engine.Handlers.Members.{
  KnownNode, NodeError, Ending, refused_nodes, refused_size, ended, LeavingData, destroys_members,
  reduces, leave_errors, is_in_target, members_of, after_leaving, leave_nodes, do_del_nodes,
}
use senlin.Engine.Handlers.Members.Departure.{
  LeaveErrors, leave_errors-LeaveErrors, departure, IsReducing, departure_lem, reduces-cases,
  reduced, not_reduced,
}
use senlin.Engine.Handlers.Members.Joining.{List-cases}

-- The ids of known nodes; those among them of nodes of the cluster.
pub data Members (target : ℕ) (table : List (ℕ × KnownNode)) : List ℕ → List ℕ → Type 0 where
  none_left : Members target table [] []
  member :
      {i : ℕ} (k : KnownNode) {is ids : List ℕ}
      → lookup i table ≡ some k
      → k.cluster_id ≡ some target
      → Members target table is ids
      → Members target table (i ∷ is) (i ∷ ids)
  stranger :
      {i : ℕ} (k : KnownNode) {is ids : List ℕ}
      → lookup i table ≡ some k
      → k.cluster_id ≢ some target
      → Members target table is ids
      → Members target table (i ∷ is) ids

module _ (target : ℕ) (table : List (ℕ × KnownNode)) where
  in_target : (k : KnownNode) → is_in_target target k ≡ true → k.cluster_id ≡ some target
  unfolding is_in_target
  in_target k e = ground (arith, e)

  not_in_target : (k : KnownNode) → is_in_target target k ≡ false → k.cluster_id ≢ some target
  unfolding is_in_target
  not_in_target k e h = ground (arith, e, h)

  leave_errors-step :
      (i : ℕ) (is : List ℕ) (o : Option KnownNode)
      → lookup i table ≡ o
      → leave_errors table (i ∷ is) ≡ []
      → (k : KnownNode) × (lookup i table ≡ some k) × (leave_errors table is ≡ [])
  unfolding leave_errors
  leave_errors-step i is none at e = absurd (ground (arith, at, e))
  leave_errors-step i is (some k) at e = (k, at, ground (arith, at, e))

  members_of-Members :
      (is : List ℕ)
      → leave_errors table is ≡ []
      → Members target table is (members_of target table is)
  unfolding members_of
  members_of-Members [] e = none_left
  members_of-Members (i ∷ is) e =
      let (k, at, rest) = leave_errors-step i is (lookup i table) refl e in
      elim (Bool-cases (is_in_target target k)) [
        | inl p ↦ rw (members_of, at, p) (member k at (in_target k p) (members_of-Members is rest))
        | inr p ↦
            rw (members_of, at, p) (stranger k at (not_in_target k p) (members_of-Members is rest))
      ]

module _ (setting : Setting) (pd : Option LeavingData) (input : Option (Option Bool))
    (w : World) where
  -- The size that the departure of so many nodes leads to.
  abbrev pub left_by : List ℕ → ℤ
  left_by ids = pos (length w.rows) -ℤ pos (length ids)

  -- The cluster when the action for each of the nodes has been started.
  abbrev left_with : List ℕ → World
  left_with ids = record w { started = w.started ++ map (λ i. (departure pd input, i)) ids }

  -- The actions of the nodes are started, and the handler ends with the result of the wait for them,
  -- the nodes of the database, and the status that these lead to, with the new size in the row where
  -- it is to be reduced.
  abbrev pub Leaves : List ℕ → Option Ending → Type 0
  Leaves ids outcome =
      (r : ActionResult × World) × (setting.wait (left_with ids) ≡ some r)
      × ((IsReducing pd
            × (outcome
                ≡ some (
                    ended r.0 (record r.1 {
                      saved = record r.1.saved { desired_capacity = left_by ids };
                      loaded = r.1.rows;
                      status =
                          evaluated (eval_status r.1.rows r.1.own (some (left_by ids)) none none);
                    }))))
          ⊎ ((¬ IsReducing pd) × (outcome ≡ some (ended r.0 (re_evaluated r.1)))))

  same_start :
      (ids : List ℕ)
      → start_children (delete_action (destroys_members pd input)) ids w ≡ left_with ids
  same_start ids = ap (λ a. start_children a ids w) (departure_lem pd input)

  after_leaving-Leaves :
      (ids : List ℕ) (r : ActionResult × World)
      → setting.wait (left_with ids) ≡ some r
      → Leaves ids (some (after_leaving (reduces pd) (left_by ids) (after_deletion ids r)))
  after_leaving-Leaves ids r k = elim (reduces-cases pd) [
    | inl (wished, e) ↦ (r, k, inl (wished, ap some (rw e (reduced ids (left_by ids) r))))
    | inr (unwished, e) ↦ (r, k, inr (unwished, ap some (rw e (not_reduced ids (left_by ids) r))))
  ]

  -- What becomes of the members, once the candidates are known.
  abbrev pub Settles : List ℕ → Option Ending → Type 0
  Settles ids outcome =
      ((ids ≡ []) × (outcome ≡ some (ended ActionResult.res_ok w)))
      ⊎ ((message : SizeError) × Misfit setting.max_nodes w.own (left_by ids) message
          × (outcome ≡ some (refused_size message)))
      ⊎ (FitsIn setting.max_nodes w.own (left_by ids) × Leaves ids outcome)

  leave_nodes-Settles :
      (ids : List ℕ) → Returns setting → Settles ids (leave_nodes setting pd input ids w)
  unfolding leave_nodes
  leave_nodes-Settles [] returns = inl (refl, refl)
  leave_nodes-Settles (i ∷ is) returns =
      elim (Option-cases (check_new_size setting (left_by (i ∷ is)) w)) [
        | inr (message, bad) ↦ inr (
            inl
              (message, check_new_size-Misfit setting w _ message bad, rw (leave_nodes, bad) refl))
        | inl fine ↦
            let (result, w', k) = returns (left_with (i ∷ is)) in
            let started =
              delete_nodes-some setting (destroys_members pd input) (i ∷ is) w (result, w')
                (omega arith) (ap setting.wait (same_start (i ∷ is)) ∙ k) in
            let ends : leave_nodes setting pd input (i ∷ is) w
                ≡ some (
                    after_leaving (reduces pd) (left_by (i ∷ is))
                      (after_deletion (i ∷ is) (result, w'))) =
              rw (leave_nodes, fine, started) refl in
            inr (
              inr (
                check_new_size-FitsIn setting w (left_by (i ∷ is)) fine,
                subst (Leaves (i ∷ is)) (sym ends) (after_leaving-Leaves (i ∷ is) (result, w') k),
              ))
      ]

-- A deletion of nodes is refused with an error for each id that is of no known node, where there is
-- such an id. Else the nodes that are not in the cluster are passed over, and of the rest: where
-- there is none, the handler succeeds and changes nothing; where the size without them is not within
-- the configured and the cluster's own bounds, it is refused with the message of the first bound
-- that it breaks; else an action is started for each, a deletion where the data, or else the inputs,
-- ask for one or have a null there, and a departure if not, and the handler ends with the result of
-- the wait for them, the nodes of the database, and the status that they lead to, where the row asks
-- for the new size unless the data tell to keep the old one.
pub do_del_nodes_lem :
    (setting : Setting) (target : ℕ) (table : List (ℕ × KnownNode)) (pd : Option LeavingData)
    (input : Option (Option Bool)) (candidates : List ℕ) (w : World)
    → Returns setting
    → ((e : NodeError) × (es : List NodeError) × LeaveErrors table candidates (e ∷ es)
        × (do_del_nodes setting target table pd input candidates w ≡ some (refused_nodes (e ∷ es))))
      ⊎ ((ids : List ℕ) × Members target table candidates ids
          × Settles setting pd input w ids
              (do_del_nodes setting target table pd input candidates w))
unfolding do_del_nodes
do_del_nodes_lem setting target table pd input candidates w returns =
    elim (List-cases (leave_errors table candidates)) [
      | inr (e, es, h) ↦ inl (
        e,
        es,
        subst (LeaveErrors table candidates) h (leave_errors-LeaveErrors table candidates),
        rw (do_del_nodes, h) refl,
      )
      | inl h ↦
          let ids = members_of target table candidates in
          let start : do_del_nodes setting target table pd input candidates w
              ≡ leave_nodes setting pd input ids w =
            rw (do_del_nodes, h) refl in
          inr (
            ids,
            members_of-Members target table candidates h,
            subst (λ o. Settles setting pd input w ids o) (sym start)
                (leave_nodes-Settles setting pd input w ids returns),
          )
    ]
