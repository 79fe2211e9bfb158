-- ===== src/Engine/Waiting/Reasons.antt =====
-- What a round of the wait for dependent actions ends with has a reason in the database or the
-- time.
use senlin.Prelude.{
  ℕ, ◌+◌, ◌<◌, ◌≡◌, refl, ◌⊎◌, inl, inr, Option, none, some, List, [], ◌∷◌, true, Bool-cases, ltb,
  arith,
}
use senlin.Table.{lookup, insert, lookup-insert}
use senlin.Db.{
  Action, ActionStatus, init, waiting, ready, running, suspended, succeeded, failed, cancelled,
  cancel, Db,
}
use senlin.Db.Actions.{action_signal_query}
use senlin.Db.Dependencies.{action_check_status, depended_by, wake}
use senlin.Engine.Results.{
  res_ok, res_error, res_retry, res_cancel, res_timeout, OwnAction, check_signal, is_timeout,
  as_check,
}
use senlin.Engine.Waiting.{
  Ended, returned, raised, ends, is_cancel, is_cancelled, at_timeout, keep_waiting, at_status,
  after_status, poll,
}

-- The row of an action that depends on none.
abbrev pub HasStatus : ℕ → ActionStatus → Db → Type 0
HasStatus a status db = (act : Action) × (lookup a db.actions ≡ some act) × (act.status ≡ status)

-- What the database and the time say at the end of a wait.
abbrev pub IsReason : ℕ → OwnAction → Db → Ended → Type 0
IsReason now action db (returned res_ok) =
    (depended_by action.id db.dependencies ≡ []) × HasStatus action.id ready db
IsReason now action db (returned res_error) = HasStatus action.id failed db
IsReason now action db (returned res_cancel) = action_signal_query action.id db ≡ some cancel
IsReason now action db (returned res_timeout) =
    (timeout : ℕ) × (action.timeout ≡ some timeout) × (action.start_time + timeout < now)
IsReason now action db (returned res_retry) = ⊥
IsReason now action db raised = (lookup action.id db.actions ≡ none) ⊎ (action.timeout ≡ none)

module _ (now : ℕ) (action : OwnAction) (db : Db) where
  is_cancelled-eq-true :
      is_cancelled now action db ≡ true → action_signal_query action.id db ≡ some cancel
  unfolding is_cancelled check_signal is_cancel as_check
  is_cancelled-eq-true h = ground (arith, h)

  at_timeout-IsReason :
      (o : Option ℕ) (ended : Ended)
      → action.timeout ≡ o
      → at_timeout now action o ≡ ends ended
      → IsReason now action db ended
  unfolding at_timeout is_timeout
  at_timeout-IsReason none ended e h =
      let same : raised ≡ ended = ground (arith, h) in rw (← same) (inr e)
  at_timeout-IsReason (some timeout) ended e h =
      elim (Bool-cases (ltb (action.start_time + timeout) now)) [
        | inl over ↦
            let same : returned res_timeout ≡ ended = ground (arith, over, h) in
            rw (← same) (timeout, e, ground (arith, over))
        | inr within ↦ absurd (ground (arith, within, h))
      ]

  keep_waiting-IsReason :
      (ended : Ended) → keep_waiting now action db ≡ ends ended → IsReason now action db ended
  unfolding keep_waiting
  keep_waiting-IsReason ended h = elim (Bool-cases (is_cancelled now action db)) [
    | inl over ↦
        let same : returned res_cancel ≡ ended = ground (arith, over, h) in
        rw (← same) (is_cancelled-eq-true over)
    | inr others ↦ at_timeout-IsReason action.timeout ended refl (rw others at h)
  ]

  at_status-IsReason :
      (status : ActionStatus) (ended : Ended)
      → ((depended_by action.id db.dependencies ≡ []) × HasStatus action.id status db)
        ⊎ (status ≡ waiting)
      → at_status now action db status ≡ ends ended
      → IsReason now action db ended
  unfolding at_status
  at_status-IsReason ready ended (inl row) h =
      let same : returned res_ok ≡ ended = ground (arith, h) in rw (← same) row
  at_status-IsReason ready ended (inr other) h = absurd (ground (arith, other))
  at_status-IsReason failed ended (inl row) h =
      let same : returned res_error ≡ ended = ground (arith, h) in rw (← same) row.1
  at_status-IsReason failed ended (inr other) h = absurd (ground (arith, other))
  at_status-IsReason init ended row h = keep_waiting-IsReason ended h
  at_status-IsReason waiting ended row h = keep_waiting-IsReason ended h
  at_status-IsReason running ended row h = keep_waiting-IsReason ended h
  at_status-IsReason suspended ended row h = keep_waiting-IsReason ended h
  at_status-IsReason succeeded ended row h = keep_waiting-IsReason ended h
  at_status-IsReason cancelled ended row h = keep_waiting-IsReason ended h

-- What `check_status` answers is the row's status, where the action depends on none.
module _ (a now : ℕ) (db : Db) where
  row-status :
      (o : Option Action)
      → depended_by a db.dependencies ≡ []
      → lookup a db.actions ≡ o
      → ((lookup a db.actions ≡ none) × (action_check_status a now db ≡ none))
        ⊎ ((status : ActionStatus) × (db' : Db) × (action_check_status a now db
              ≡ some (status, db'))
            × (depended_by a db'.dependencies ≡ [])
            × HasStatus a status db')
  unfolding action_check_status
  row-status none d e = inl (e, ground (arith, d, e))
  row-status (some act) d e = inr (
    (wake now act).status,
    record db { actions = insert a (wake now act) db.actions },
    ground (arith, d, e),
    d,
    (wake now act, ground (arith, lookup-insert a a (wake now act) db.actions), refl),
  )

  pub action_check_status-cases :
      ((lookup a db.actions ≡ none) × (action_check_status a now db ≡ none))
      ⊎ ((status : ActionStatus) × (db' : Db) × (action_check_status a now db ≡ some (status, db'))
          × (((depended_by a db'.dependencies ≡ []) × HasStatus a status db') ⊎ (status ≡ waiting)))
  unfolding action_check_status
  action_check_status-cases = by_rows (depended_by a db.dependencies) refl
    where
      by_rows :
          (ds : List ℕ)
          → depended_by a db.dependencies ≡ ds
          → ((lookup a db.actions ≡ none) × (action_check_status a now db ≡ none))
            ⊎ ((status : ActionStatus) × (db' : Db) × (action_check_status a now db
                  ≡ some (status, db'))
                × (((depended_by a db'.dependencies ≡ []) × HasStatus a status db')
                    ⊎ (status ≡ waiting)))
      by_rows [] d = elim (row-status (lookup a db.actions) d refl) [
        | inl missing ↦ inl missing
        | inr (status, db', e, d', row) ↦ inr (status, db', e, inl (d', row))
      ]
      by_rows (x ∷ xs) d = inr (waiting, db, ground (arith, d), inr refl)

-- What a round of the wait ends with has its reason in the database it leaves and the time.
pub poll-IsReason :
    (now : ℕ) (action : OwnAction) (db : Db) (ended : Ended)
    → (poll now action db).0 ≡ ends ended
    → IsReason now action (poll now action db).1 ended
unfolding poll after_status
poll-IsReason now action db ended h = elim (action_check_status-cases action.id now db) [
  | inl (missing, e) ↦
      let same : raised ≡ ended = ground (arith, e, h) in rw (e, ← same) (inl missing)
  | inr (status, db', e, row) ↦
      rw e (at_status-IsReason now action db' status ended row (ground (arith, e, h)))
]
