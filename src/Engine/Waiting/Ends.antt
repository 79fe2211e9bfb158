-- ===== src/Engine/Waiting/Ends.antt =====
-- The wait for dependent actions ends, and with a result that the database or the clock justifies.
use senlin.Prelude.{ℕ, zero, suc, ◌+◌, ◌*◌, ◌<◌, ◌≤◌, ◌≡◌, refl, ◌∙◌, ◌⊎◌, inl, inr, some, arith}
use senlin.Db.{
  ActionStatus, init, waiting, ready, running, suspended, succeeded, failed, cancelled, Db,
}
use senlin.Engine.Results.{OwnAction, is_timeout}
use senlin.Engine.Waiting.{
  Ended, Round, again, ends, at_timeout, keep_waiting, at_status, after_status, poll,
  wait_for_dependents,
}
use senlin.Engine.Waiting.Reasons.{IsReason, action_check_status-cases, poll-IsReason}

Round-cases : (step : Round) → (step ≡ again) ⊎ ((ended : Ended) × (step ≡ ends ended))
Round-cases again = inl refl
Round-cases (ends ended) = inr (ended, refl)

-- Past the time-out no round waits on.
late-at_status :
    (now timeout : ℕ) (action : OwnAction) (db : Db) (status : ActionStatus)
    → action.timeout ≡ some timeout
    → action.start_time + timeout < now
    → ¬ (at_status now action db status ≡ again)
unfolding at_status keep_waiting at_timeout is_timeout
late-at_status now timeout action db ready e late h = absurd (ground (arith, h))
late-at_status now timeout action db failed e late h = absurd (ground (arith, h))
late-at_status now timeout action db init e late h = absurd (ground (arith, e, late, h))
late-at_status now timeout action db waiting e late h = absurd (ground (arith, e, late, h))
late-at_status now timeout action db running e late h = absurd (ground (arith, e, late, h))
late-at_status now timeout action db suspended e late h = absurd (ground (arith, e, late, h))
late-at_status now timeout action db succeeded e late h = absurd (ground (arith, e, late, h))
late-at_status now timeout action db cancelled e late h = absurd (ground (arith, e, late, h))

late-poll :
    (now timeout : ℕ) (action : OwnAction) (db : Db)
    → action.timeout ≡ some timeout
    → action.start_time + timeout < now
    → ¬ ((poll now action db).0 ≡ again)
unfolding poll after_status
late-poll now timeout action db e late h = elim (action_check_status-cases action.id now db) [
  | inl (missing, k) ↦ absurd (ground (arith, k, h))
  | inr (status, db', k, row) ↦
      late-at_status now timeout action db' status e late (ground (arith, k, h))
]

module _ (clock : ℕ → ℕ) (meanwhile : ℕ → Db → Db) (action : OwnAction) (timeout : ℕ)
    (e : action.timeout ≡ some timeout) (advances : (k : ℕ) → clock k + 3 ≤ clock (suc k)) where
  abbrev Waits : ℕ → ℕ → Db → Type 0
  Waits fuel round db =
      (ended : Ended) × (db' : Db) × (k : ℕ) × (wait_for_dependents clock meanwhile fuel round
          action db
        ≡ some (ended, db'))
      × IsReason (clock k) action db' ended

  go_on :
      (fuel round : ℕ) (db : Db)
      → (poll (clock round) action db).0 ≡ again
      → wait_for_dependents clock meanwhile (suc fuel) round action db
        ≡ wait_for_dependents clock meanwhile fuel
            (suc round)
            action
            (meanwhile round (poll (clock round) action db).1)
  unfolding wait_for_dependents
  go_on fuel round db h = rw (wait_for_dependents, h) refl

  ends_now :
      (fuel round : ℕ) (db : Db) (ended : Ended)
      → (poll (clock round) action db).0 ≡ ends ended
      → Waits (suc fuel) round db
  unfolding wait_for_dependents
  ends_now fuel round db ended h = (
    ended,
    (poll (clock round) action db).1,
    round,
    rw (wait_for_dependents, h) refl,
    poll-IsReason (clock round) action db ended h,
  )

  wait_from :
      (fuel round : ℕ) (db : Db)
      → action.start_time + timeout < clock round + 3 * fuel
      → Waits (suc fuel) round db
  wait_from zero round db h = elim (Round-cases (poll (clock round) action db).0) [
    | inl more ↦ absurd (late-poll (clock round) timeout action db e (omega (arith, h)) more)
    | inr (ended, done) ↦ ends_now zero round db ended done
  ]
  wait_from (suc fuel) round db h = elim (Round-cases (poll (clock round) action db).0) [
    | inl more ↦
        let (ended, db', k, found, why) =
          wait_from fuel (suc round) (meanwhile round (poll (clock round) action db).1)
            (omega (arith, h, advances round)) in
        (ended, db', k, go_on (suc fuel) round db more ∙ found, why)
    | inr (ended, done) ↦ ends_now (suc fuel) round db ended done
  ]

-- An action with a time-out, whose clock advances by three seconds or more in each sleep, does not
-- wait for its dependents for ever, whatever the other engines do to the database meanwhile: it
-- ends when it polls once more than a third of the seconds left until its time-out, and with a
-- result that the database and the time of some round give reason for: success for a row that is
-- ready and depends on no other, an error for a failed one, a cancel for a signal, and a time-out
-- for one that is over.
pub wait_for_dependents-ends :
    (clock : ℕ → ℕ) (meanwhile : ℕ → Db → Db) (action : OwnAction) (timeout fuel : ℕ) (db : Db)
    → action.timeout ≡ some timeout
    → ((k : ℕ) → clock k + 3 ≤ clock (suc k))
    → action.start_time + timeout < clock 0 + 3 * fuel
    → (ended : Ended) × (db' : Db) × (k : ℕ) × (wait_for_dependents clock meanwhile
          (suc fuel)
          0
          action
          db
        ≡ some (ended, db'))
      × IsReason (clock k) action db' ended
wait_for_dependents-ends clock meanwhile action timeout fuel db e advances enough =
    wait_from clock meanwhile action timeout e advances fuel 0 db enough
