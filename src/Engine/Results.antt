-- ===== src/Engine/Results.antt =====
-- The `Action` class of senlin/engine/actions/base.py: `set_status`, `signal` and `_check_signal`.
pub mod Recorded
use Prim.Native.String.{String, len}
use senlin.Prelude.{
  ℕ, suc, ◌+◌, Bool, true, false, Option, none, some, ◌==◌, ltb, if◌then◌else◌, ◌>>=◌,
}
use senlin.Db.{
  ActionStatus, init, waiting, ready, running, suspended, succeeded, failed, cancelled, Signal,
  cancel, suspend, resume, Db,
}
use senlin.Db.Actions.{action_abandon, action_signal, action_signal_query}
use senlin.Db.Cascade.{action_mark_succeeded, action_mark_failed, action_mark_cancelled}

-- What `execute` returns.
pub data ActionResult : Type 0 where
  res_ok res_error res_retry res_cancel res_timeout : ActionResult

-- `self.status`: a status, or the word of RES_ERROR, which is none.
pub data OwnStatus : Type 0 where
  own : ActionStatus → OwnStatus
  error_word : OwnStatus

-- What the object of the engine for an action holds of it.
pub record OwnAction : Type 0 where
  pub id : ℕ
  pub status : OwnStatus
  pub status_reason : Option String
  -- `data['retries']`, 0 where it is missing
  pub retries : ℕ
  pub start_time : ℕ
  pub timeout : Option ℕ

-- `reason or default`
unfoldable pub or_word : Option String → String → String
or_word none default = default
or_word (some reason) default = if len reason == 0 then default else reason

-- The last lines of `set_status`.
unfoldable pub keep_status : OwnStatus → Option String → OwnAction → OwnAction
keep_status status reason action = record action { status = status; status_reason = reason }

-- RES_RETRY, with `exceeded` for the reason that names the configured number of retries; the
-- message to the dispatcher that starts the action anew is left out.
unfoldable pub set_retry : ℕ → ℕ → String → Option String → OwnAction → Db → Option (OwnAction × Db)
unfolding or_word keep_status
set_retry lock_retry_times timestamp exceeded reason action db =
    let again = do
      db' ← action_abandon action.id (λ act. record act { retries = suc action.retries }) db
      some (keep_status (own ready) reason (record action { retries = suc action.retries }), db')
    in let over = do
      db' ← action_mark_failed action.id timestamp (some (or_word reason exceeded)) db
      some (keep_status error_word (some (or_word reason exceeded)) action, db')
      in if ltb action.retries lock_retry_times then again else over

-- `none` is a raised exception.
unfoldable pub set_status :
    ℕ → ℕ → String → ActionResult → Option String → OwnAction → Db → Option (OwnAction × Db)
unfolding set_retry
set_status lock_retry_times timestamp exceeded res_ok reason action db =
    some (keep_status (own succeeded) reason action, action_mark_succeeded action.id timestamp db)
set_status lock_retry_times timestamp exceeded res_error reason action db = do
  db' ← action_mark_failed action.id timestamp (some (or_word reason "ERROR")) db
  some (keep_status (own failed) reason action, db')
set_status lock_retry_times timestamp exceeded res_timeout reason action db = do
  db' ← action_mark_failed action.id timestamp (some (or_word reason "TIMEOUT")) db
  some (keep_status (own failed) reason action, db')
set_status lock_retry_times timestamp exceeded res_cancel reason action db = do
  db' ← action_mark_cancelled action.id timestamp none db
  some (keep_status (own cancelled) reason action, db')
set_status lock_retry_times timestamp exceeded res_retry reason action db =
    set_retry lock_retry_times timestamp exceeded reason action db

-- The statuses that a signal may be sent in.
unfoldable pub expects : Signal → ActionStatus → Bool
expects cancel init = true
expects cancel waiting = true
expects cancel ready = true
expects cancel running = true
expects cancel _ = false
expects suspend running = true
expects suspend _ = false
expects resume suspended = true
expects resume _ = false

-- `signal`, by an object with that status.
unfoldable pub send_signal : Signal → ActionStatus → ℕ → Db → Db
unfolding expects
send_signal cmd status action_id db =
    if expects cmd status then action_signal action_id cmd db else db

pub data Check : Type 0 where
  no_signal timed_out : Check
  command : Signal → Check

unfoldable pub is_timeout : ℕ → OwnAction → ℕ → Bool
is_timeout now action timeout = ltb (action.start_time + timeout) now

unfoldable pub as_check : Option Signal → Check
as_check none = no_signal
as_check (some cmd) = command cmd

-- `self.timeout is not None and self.is_timeout()`
unfoldable pub out_of_time : ℕ → OwnAction → Bool
unfolding is_timeout
out_of_time now action = elim action.timeout [
  | none ↦ false
  | some timeout ↦ is_timeout now action timeout
]

-- `_check_signal`
unfoldable pub check_signal : ℕ → OwnAction → Db → Check
unfolding out_of_time as_check
check_signal now action db =
    if out_of_time now action then timed_out else as_check (action_signal_query action.id db)
