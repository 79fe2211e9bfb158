-- ===== src/Engine/Waiting.antt =====
-- `_wait_for_dependents` of senlin/engine/actions/cluster_action.py, with `get_status` of
-- senlin/engine/actions/base.py. Other engines change the database while the thread sleeps.
pub mod Reasons
pub mod Ends
use senlin.Prelude.{ℕ, zero, suc, Option, none, some, Bool, true, false, if◌then◌else◌}
use senlin.Db.{
  ActionStatus, init, waiting, ready, running, suspended, succeeded, failed, cancelled, Signal,
  cancel, suspend, resume, Db,
}
use senlin.Db.Dependencies.{action_check_status}
use senlin.Engine.Results.{
  ActionResult, res_ok, res_error, res_cancel, res_timeout, OwnAction, Check, no_signal, timed_out,
  command, check_signal, is_timeout,
}

-- What a run of an action's code ends with: its result, or an exception.
pub data Ended : Type 0 where
  returned : ActionResult → Ended
  raised : Ended

-- What one round of the loop does.
pub data Round : Type 0 where
  again : Round
  ends : Ended → Round

-- `self._check_signal() == self.SIG_CANCEL`
unfoldable pub is_cancel : Check → Bool
is_cancel (command cancel) = true
is_cancel _ = false

unfoldable pub is_cancelled : ℕ → OwnAction → Db → Bool
unfolding is_cancel check_signal
is_cancelled now action db = is_cancel (check_signal now action db)

-- `self.is_timeout()`: a comparison with None raises.
unfoldable pub at_timeout : ℕ → OwnAction → Option ℕ → Round
unfolding is_timeout
at_timeout now action none = ends raised
at_timeout now action (some timeout) =
    if is_timeout now action timeout then ends (returned res_timeout) else again

unfoldable pub keep_waiting : ℕ → OwnAction → Db → Round
unfolding is_cancelled at_timeout
keep_waiting now action db =
    if is_cancelled now action db
    then ends (returned res_cancel)
    else at_timeout now action action.timeout

-- The body of the loop, with the test that leads to it.
unfoldable pub at_status : ℕ → OwnAction → Db → ActionStatus → Round
unfolding keep_waiting
at_status now action db ready = ends (returned res_ok)
at_status now action db failed = ends (returned res_error)
at_status now action db init = keep_waiting now action db
at_status now action db waiting = keep_waiting now action db
at_status now action db running = keep_waiting now action db
at_status now action db suspended = keep_waiting now action db
at_status now action db succeeded = keep_waiting now action db
at_status now action db cancelled = keep_waiting now action db

-- `get_status`, and what follows in the round.
unfoldable pub after_status : ℕ → OwnAction → Db → Option (ActionStatus × Db) → Round × Db
unfolding at_status
after_status now action db none = (ends raised, db)
after_status now action db (some (status, db')) = (at_status now action db' status, db')

unfoldable pub poll : ℕ → OwnAction → Db → Round × Db
unfolding after_status
poll now action db = after_status now action db (action_check_status action.id now db)

-- The loop: `clock` is the time of each round, and `meanwhile` what the other engines do to the
-- database in the sleep after it. `none` is out of fuel.
unfoldable pub wait_for_dependents :
    (ℕ → ℕ) → (ℕ → Db → Db) → ℕ → ℕ → OwnAction → Db → Option (Ended × Db)
unfolding poll
wait_for_dependents clock meanwhile zero round action db = none
wait_for_dependents clock meanwhile (suc fuel) round action db =
    let (step, db') = poll (clock round) action db in
    elim step [
      | ends ended ↦ some (ended, db')
      | again ↦ wait_for_dependents clock meanwhile fuel (suc round) action (meanwhile round db')
    ]
