-- ===== src/Engine/NodeLife/Settled.antt =====
-- No operation leaves a node in a status of an operation under way, save one.
use senlin.Prelude.{
  ℕ, ◌≡◌, refl, sym, ap, ◌∙◌, ◌⊎◌, inl, inr, Bool, true, false, Option, none, some, ◌==◌,
  Bool-cases,
}
use senlin.Prelude.Int.{ℤ, negsuc}
use senlin.Node.{
  NodeStatus, init, active, error, warning, creating, updating, deleting, recovering, operating,
}
use senlin.Engine.NodeLife.{
  NodeState, Answer, answers, raises, Creation, made, failed_with, set_status, after_create,
  is_init, do_create, do_delete, after_update, do_update, node_migrate, is_member, after_join,
  do_join, do_leave, checked_active, after_node_check, do_check, is_fine, replace_physical,
  after_recover, do_recover, after_operation, do_operation,
}

-- What an action of a node asks for, with what the profile answers.
pub data Operation : Type 0 where
  create : Creation → Operation
  delete : Answer Bool → Operation
  update : Option ℕ → Answer Bool → Operation
  join : ℕ → ℤ → Bool → Operation
  leave : Bool → Operation
  check : Answer Bool → Operation
  recover : Option (Answer Bool) → Answer (Option ℕ) → Operation
  operate : Answer Bool → Operation

abbrev kept : Bool × NodeState → Bool × Option NodeState
kept (res, s) = (res, some s)

unfoldable pub run : ℕ → Operation → NodeState → Bool × Option NodeState
unfolding do_create do_delete do_update do_join do_leave do_check do_recover do_operation
run now (create creation) s = kept (do_create now creation s)
run now (delete answer) s = do_delete now answer s
run now (update new_profile answer) s = kept (do_update now new_profile answer s)
run now (join cluster_id next joins) s = kept (do_join now cluster_id next joins s)
run now (leave leaves) s = kept (do_leave now leaves s)
run now (check answer) s = kept (do_check now answer s)
run now (recover first answer) s = kept (do_recover now first answer s)
run now (operate answer) s = kept (do_operation now answer s)

-- A status of a node that no operation works on.
abbrev pub IsSettled : NodeStatus → Type 0
IsSettled init = Unit
IsSettled active = Unit
IsSettled error = Unit
IsSettled warning = Unit
IsSettled creating = ⊥
IsSettled updating = ⊥
IsSettled deleting = ⊥
IsSettled recovering = ⊥
IsSettled operating = ⊥

-- The row is gone or its status settled.
abbrev pub RowIsSettled : Option NodeState → Type 0
RowIsSettled none = Unit
RowIsSettled (some s) = IsSettled s.status

-- An update to a new profile that the profile answers was not made.
abbrev pub IsUndone : Operation → Type 0
IsUndone (update (some p) (answers false)) = Unit
IsUndone _ = ⊥

module _ (now : ℕ) (s : NodeState) (settled : IsSettled s.status) where
  create-IsSettled : (creation : Creation) → RowIsSettled (run now (create creation) s).1
  unfolding run do_create after_create set_status
  create-IsSettled creation = elim (Bool-cases (is_init s.status)) [
    | inl fresh ↦ rw (do_create, fresh) (created creation)
    | inr other ↦ rw (do_create, other) settled
  ]
    where
      created :
          (creation : Creation)
          → IsSettled (after_create now creation (set_status now creating s)).1.status
      created (made p) = tt
      created (failed_with p) = tt

  delete-IsSettled :
      (o : Option ℕ) (answer : Answer Bool)
      → s.physical_id ≡ o
      → RowIsSettled (run now (delete answer) s).1
  unfolding run do_delete set_status
  delete-IsSettled none answer e = rw (do_delete, e) tt
  delete-IsSettled (some p) (answers r) e = rw (do_delete, e) tt
  delete-IsSettled (some p) raises e = rw (do_delete, e) tt

  update-IsSettled :
      (o new_profile : Option ℕ) (answer : Answer Bool)
      → s.physical_id ≡ o
      → RowIsSettled (run now (update new_profile answer) s).1
        ⊎ IsUndone (update new_profile answer)
  unfolding run do_update after_update set_status
  update-IsSettled none new_profile answer e = inl (rw (do_update, e) settled)
  update-IsSettled (some p) none answer e = inl (rw (do_update, e) tt)
  update-IsSettled (some p) (some q) (answers true) e = inl (rw (do_update, e) tt)
  update-IsSettled (some p) (some q) (answers false) e = inr tt
  update-IsSettled (some p) (some q) raises e = inl (rw (do_update, e) tt)

  join-IsSettled :
      (c : ℕ) (next : ℤ) (joins : Bool) → RowIsSettled (run now (join c next joins) s).1
  unfolding run do_join node_migrate after_join
  join-IsSettled c next joins = elim (Bool-cases (is_member c s.cluster_id)) [
    | inl member ↦ rw (do_join, member) settled
    | inr other ↦ rw (do_join, other) (joined joins)
  ]
    where
      joined :
          (joins : Bool)
          → IsSettled (after_join now joins (node_migrate now (some c) next s)).1.status
      joined true = settled
      joined false = settled

  leave-IsSettled :
      (o : Option ℕ) (leaves : Bool) → s.cluster_id ≡ o → RowIsSettled (run now (leave leaves) s).1
  unfolding run do_leave node_migrate
  leave-IsSettled none leaves e = rw (do_leave, e) settled
  leave-IsSettled (some c) true e = rw (do_leave, e) settled
  leave-IsSettled (some c) false e = rw (do_leave, e) settled

  checked_active-IsSettled : (status : NodeStatus) → IsSettled (checked_active now status s).status
  unfolding checked_active set_status
  checked_active-IsSettled init = tt
  checked_active-IsSettled active = tt
  checked_active-IsSettled error = tt
  checked_active-IsSettled warning = tt
  checked_active-IsSettled creating = tt
  checked_active-IsSettled updating = tt
  checked_active-IsSettled deleting = tt
  checked_active-IsSettled recovering = tt
  checked_active-IsSettled operating = tt

  check-IsSettled :
      (o : Option ℕ) (answer : Answer Bool)
      → s.physical_id ≡ o
      → RowIsSettled (run now (check answer) s).1
  unfolding run do_check after_node_check set_status
  check-IsSettled none answer e = rw (do_check, e) settled
  check-IsSettled (some p) (answers true) e = rw (do_check, e) (checked_active-IsSettled s.status)
  check-IsSettled (some p) (answers false) e = rw (do_check, e) tt
  check-IsSettled (some p) raises e = rw (do_check, e) tt

  replace_physical-IsSettled :
      (old new : ℕ) (t : NodeState)
      → IsSettled t.status
      → IsSettled (replace_physical old new t).status
  unfolding replace_physical
  replace_physical-IsSettled old new t h = elim (Bool-cases (old == new)) [
    | inl same ↦ rw (replace_physical, same) h
    | inr other ↦ rw (replace_physical, other) h
  ]

  recover-IsSettled :
      (o : Option ℕ) (first : Option (Answer Bool)) (answer : Answer (Option ℕ))
      → s.physical_id ≡ o
      → RowIsSettled (run now (recover first answer) s).1
  unfolding run do_recover after_recover set_status
  recover-IsSettled none first answer e = rw (do_recover, e) settled
  recover-IsSettled (some p) first answer e = elim (Bool-cases (is_fine first)) [
    | inl fine ↦ rw (do_recover, e, fine) tt
    | inr other ↦ rw (do_recover, e, other) (recovered p answer)
  ]
    where
      recovered :
          (p : ℕ) (answer : Answer (Option ℕ))
          → IsSettled (after_recover now p answer (set_status now recovering s)).1.status
      recovered p raises = tt
      recovered p (answers none) = tt
      recovered p (answers (some new)) =
          replace_physical-IsSettled p new (set_status now active (set_status now recovering s)) tt

  operate-IsSettled :
      (o : Option ℕ) (answer : Answer Bool)
      → s.physical_id ≡ o
      → RowIsSettled (run now (operate answer) s).1
  unfolding run do_operation after_operation set_status
  operate-IsSettled none answer e = rw (do_operation, e) settled
  operate-IsSettled (some p) (answers r) e = rw (do_operation, e) tt
  operate-IsSettled (some p) raises e = rw (do_operation, e) tt

-- An operation on a node whose status is settled, whatever the profile answers, leaves it with a
-- settled status or deletes it, save one case: an update to a new profile that the profile answers
-- was not made.
pub run-IsSettled :
    (now : ℕ) (operation : Operation) (s : NodeState)
    → IsSettled s.status
    → RowIsSettled (run now operation s).1 ⊎ IsUndone operation
run-IsSettled now (create creation) s h = inl (create-IsSettled now s h creation)
run-IsSettled now (delete answer) s h = inl (delete-IsSettled now s h s.physical_id answer refl)
run-IsSettled now (update new_profile answer) s h =
    update-IsSettled now s h s.physical_id new_profile answer refl
run-IsSettled now (join c next joins) s h = inl (join-IsSettled now s h c next joins)
run-IsSettled now (leave leaves) s h = inl (leave-IsSettled now s h s.cluster_id leaves refl)
run-IsSettled now (check answer) s h = inl (check-IsSettled now s h s.physical_id answer refl)
run-IsSettled now (recover first answer) s h =
    inl (recover-IsSettled now s h s.physical_id first answer refl)
run-IsSettled now (operate answer) s h = inl (operate-IsSettled now s h s.physical_id answer refl)

-- A node of no cluster that joins one and then leaves it is as it was, but for its index, which is
-- -1, its role, which is none, and the time of its update.
pub do_join-do_leave :
    (now later c : ℕ) (next : ℤ) (s : NodeState)
    → s.cluster_id ≡ none
    → do_leave later true (do_join now c next true s).1
      ≡ (true, record s { index = negsuc 0; role = none; updated_at = some later })
unfolding do_leave do_join node_migrate after_join
do_join-do_leave now later c next s e =
    let apart : is_member c s.cluster_id ≡ false = rw e (unfold is_member in refl) in
    let joined : (do_join now c next true s).1 ≡ node_migrate now (some c) next s =
      rw (do_join, apart) refl in
    ap (do_leave later true) joined
    ∙ ap
        (λ k. (
          true,
          record s { cluster_id = k; index = negsuc 0; role = none; updated_at = some later },
        ))
        (sym e)
