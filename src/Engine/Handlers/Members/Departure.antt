-- ===== src/Engine/Handlers/Members/Departure.antt =====
-- How nodes leave a cluster in `do_del_nodes`, and which ids it complains about.
use senlin.Prelude.{
  ℕ, ◌≡◌, refl, ◌⊎◌, inl, inr, Bool, true, false, Option, none, some, List, [], ◌∷◌,
}
use senlin.Prelude.Int.{ℤ}
use senlin.Table.{lookup}
use senlin.Engine.Results.{ActionResult}
use senlin.Engine.Handlers.{World, evaluated, evaluate, delete_action, after_deletion}
use senlin.Engine.Handlers.NewSize.{re_evaluated}
use senlin.Engine.Cluster.{eval_status}
use senlin.Db.{ActionName, node_delete, node_leave}
use senlin.Engine.Handlers.Members.{
  KnownNode, NodeError, gone, is_not_false, is_truthy, evaluate_with, ended, LeavingData,
  destroys_members, reduces, leave_errors, after_leaving,
}

-- The errors of these ids: one for each that is of no known node, in their order.
pub data LeaveErrors (table : List (ℕ × KnownNode)) : List ℕ → List NodeError → Type 0 where
  no_ids : LeaveErrors table [] []
  unknown :
      {i : ℕ} {is : List ℕ} {es : List NodeError}
      → lookup i table ≡ none
      → LeaveErrors table is es
      → LeaveErrors table (i ∷ is) (gone i ∷ es)
  there :
      {i : ℕ} (k : KnownNode) {is : List ℕ} {es : List NodeError}
      → lookup i table ≡ some k
      → LeaveErrors table is es
      → LeaveErrors table (i ∷ is) es

pub leave_errors-LeaveErrors :
    (table : List (ℕ × KnownNode)) (ids : List ℕ) → LeaveErrors table ids (leave_errors table ids)
unfolding leave_errors
leave_errors-LeaveErrors table [] = no_ids
leave_errors-LeaveErrors table (i ∷ is) =
    by_row (leave_errors-LeaveErrors table is) (lookup i table) refl
  where
    by_row :
        LeaveErrors table is (leave_errors table is)
        → (o : Option KnownNode) → lookup i table ≡ o
        → LeaveErrors table (i ∷ is) (leave_errors table (i ∷ is))
    by_row rest none missing = rw (leave_errors, missing) (unknown missing rest)
    by_row rest (some k) found_ = rw (leave_errors, found_) (there k found_ rest)

-- What a node leaves by: it is deleted where that is asked for, and where the wish is null; the wish
-- is that of the data, or else of the inputs.
abbrev asked_departure : Option (Option Bool) → ActionName
asked_departure none = node_leave
asked_departure (some none) = node_delete
asked_departure (some (some true)) = node_delete
asked_departure (some (some false)) = node_leave

abbrev pub departure : Option LeavingData → Option (Option Bool) → ActionName
departure none input = asked_departure input
departure (some pd) input = asked_departure pd.destroy_after_deletion

-- The data do not tell to keep the capacity that the cluster wants.
abbrev AsksReduction : Option (Option Bool) → Type 0
AsksReduction none = Unit
AsksReduction (some none) = ⊥
AsksReduction (some (some true)) = Unit
AsksReduction (some (some false)) = ⊥

abbrev pub IsReducing : Option LeavingData → Type 0
IsReducing none = Unit
IsReducing (some pd) = AsksReduction pd.reduce_desired_capacity

asked_departure_lem :
    (o : Option (Option Bool)) → delete_action (is_not_false o) ≡ asked_departure o
unfolding delete_action
asked_departure_lem none = refl
asked_departure_lem (some none) = refl
asked_departure_lem (some (some true)) = refl
asked_departure_lem (some (some false)) = refl

pub departure_lem :
    (pd : Option LeavingData) (input : Option (Option Bool))
    → delete_action (destroys_members pd input) ≡ departure pd input
unfolding destroys_members
departure_lem none input = asked_departure_lem input
departure_lem (some pd) input = asked_departure_lem pd.destroy_after_deletion

AsksReduction-cases :
    (o : Option (Option Bool))
    → (AsksReduction o × (is_truthy o ≡ true)) ⊎ ((¬ AsksReduction o) × (is_truthy o ≡ false))
AsksReduction-cases none = inl (tt, refl)
AsksReduction-cases (some none) = inr (λ h. h, refl)
AsksReduction-cases (some (some true)) = inl (tt, refl)
AsksReduction-cases (some (some false)) = inr (λ h. h, refl)

pub reduces-cases :
    (pd : Option LeavingData)
    → (IsReducing pd × (reduces pd ≡ true)) ⊎ ((¬ IsReducing pd) × (reduces pd ≡ false))
unfolding reduces
reduces-cases none = inl (tt, refl)
reduces-cases (some pd) = AsksReduction-cases pd.reduce_desired_capacity

module _ (ids : List ℕ) (d : ℤ) where
  pub reduced :
      (r : ActionResult × World)
      → after_leaving true d (after_deletion ids r)
        ≡ ended r.0 (record r.1 {
          saved = record r.1.saved { desired_capacity = d };
          loaded = r.1.rows;
          status = evaluated (eval_status r.1.rows r.1.own (some d) none none);
        })
  unfolding after_leaving after_deletion evaluate_with
  reduced (ActionResult.res_ok, w) = refl
  reduced (ActionResult.res_error, w) = refl
  reduced (ActionResult.res_retry, w) = refl
  reduced (ActionResult.res_cancel, w) = refl
  reduced (ActionResult.res_timeout, w) = refl

  pub not_reduced :
      (r : ActionResult × World)
      → after_leaving false d (after_deletion ids r) ≡ ended r.0 (re_evaluated r.1)
  unfolding after_leaving after_deletion evaluate
  not_reduced (ActionResult.res_ok, w) = refl
  not_reduced (ActionResult.res_error, w) = refl
  not_reduced (ActionResult.res_retry, w) = refl
  not_reduced (ActionResult.res_cancel, w) = refl
  not_reduced (ActionResult.res_timeout, w) = refl
