-- ===== src/Engine/Results/Recorded.antt =====
-- What the table says of an action once its result is recorded, and which signals it sees.
use Prim.Native.String.{String}
use senlin.Prelude.{
  ℕ, suc, ◌≡◌, refl, false, Option, none, some, ==_refl, ltb, if◌then◌else◌, Bool-cases, inl, inr,
}
use senlin.Table.{lookup, insert, lookup-insert, lookup-update}
use senlin.Db.{Action, ActionStatus, ready, succeeded, failed, cancelled, Signal, Db}
use senlin.Db.Actions.{abandon, action_abandon, action_signal, action_signal_query}
use senlin.Db.Cascade.{
  finish, mark, enough, action_mark_succeeded, action_mark_failed, action_mark_cancelled,
}
use senlin.Db.Cascade.Termination.{mark-ends}
use senlin.Db.Cascade.Progress.{IsDone, mark-Progress}
use senlin.Engine.Results.{
  ActionResult, res_ok, res_error, res_retry, res_cancel, res_timeout, OwnStatus, own, error_word,
  OwnAction, or_word, keep_status, set_status, expects, send_signal, command, as_check, out_of_time,
  check_signal,
}

-- The status that a result leads to, in the table.
abbrev pub ended : ℕ → ActionResult → ℕ → ActionStatus
ended lock_retry_times res_ok retries = succeeded
ended lock_retry_times res_error retries = failed
ended lock_retry_times res_timeout retries = failed
ended lock_retry_times res_cancel retries = cancelled
ended lock_retry_times res_retry retries = if ltb retries lock_retry_times then ready else failed

-- The status that the object takes.
abbrev pub noted : ℕ → ActionResult → ℕ → OwnStatus
noted lock_retry_times res_retry retries =
    if ltb retries lock_retry_times then own ready else error_word
noted lock_retry_times result retries = own (ended lock_retry_times result retries)

-- The retries that have been made then.
abbrev pub counted : ℕ → ActionResult → ℕ → ℕ
counted lock_retry_times res_retry retries =
    if ltb retries lock_retry_times then suc retries else retries
counted lock_retry_times result retries = retries

mark-IsDone :
    (status : ActionStatus) (timestamp : ℕ) (reason : Option String) (a : ℕ) (db : Db)
    → (db' : Db) × (mark status timestamp (enough db) reason a db ≡ some db')
      × IsDone status (lookup a db'.actions)
mark-IsDone status timestamp reason a db =
    let (db', e, _) = mark-ends status timestamp reason a db in
    (db', e, (mark-Progress status timestamp (enough db) reason a db db' e).1.done)

succeeded-IsDone :
    (a timestamp : ℕ) (db : Db) (act : Action)
    → lookup a db.actions ≡ some act
    → IsDone succeeded (lookup a (action_mark_succeeded a timestamp db).actions)
unfolding action_mark_succeeded finish
succeeded-IsDone a timestamp db act h = rw (lookup-update, ==_refl a, h) (refl, refl)

abandon-IsDone :
    (a retries : ℕ) (db : Db) (act : Action)
    → lookup a db.actions ≡ some act
    → (db' : Db) × (action_abandon a (λ act. record act { retries = retries }) db ≡ some db')
      × IsDone ready (lookup a db'.actions)
unfolding action_abandon abandon
abandon-IsDone a retries db act h = (
  record db { actions = insert a (abandon (λ x. record x { retries = retries }) act) db.actions },
  rw (action_abandon, h),
  rw (lookup-insert, ==_refl a) (refl, refl),
)

-- Recording a result for an action that is in the table raises no exception. The row then has no
-- owner and the status of the result: succeeded, failed, cancelled, or for a retry ready, unless
-- the configured number of retries has been made, when it has failed. The object has the same
-- status, but for that last case, and counts the retry.
pub set_status_lem :
    (lock_retry_times timestamp : ℕ) (exceeded : String) (result : ActionResult)
    (reason : Option String) (action : OwnAction) (db : Db) (act : Action)
    → lookup action.id db.actions ≡ some act
    → (after : OwnAction) × (db' : Db) × (set_status lock_retry_times timestamp exceeded result
          reason action db
        ≡ some (after, db'))
      × IsDone (ended lock_retry_times result action.retries) (lookup action.id db'.actions)
      × (after.status ≡ noted lock_retry_times result action.retries)
      × (after.retries ≡ counted lock_retry_times result action.retries)
unfolding set_status keep_status action_mark_failed action_mark_cancelled
set_status_lem n t exceeded res_ok reason action db act h =
    (_, _, refl, succeeded-IsDone action.id t db act h, refl, refl)
set_status_lem n t exceeded res_error reason action db act h =
    let (db', e, done) = mark-IsDone failed t (some (or_word reason "ERROR")) action.id db in
    (keep_status (own failed) reason action, db', rw e, done, refl, refl)
set_status_lem n t exceeded res_timeout reason action db act h =
    let (db', e, done) = mark-IsDone failed t (some (or_word reason "TIMEOUT")) action.id db in
    (keep_status (own failed) reason action, db', rw e, done, refl, refl)
set_status_lem n t exceeded res_cancel reason action db act h =
    let (db', e, done) = mark-IsDone cancelled t none action.id db in
    (keep_status (own cancelled) reason action, db', rw e, done, refl, refl)
set_status_lem n t exceeded res_retry reason action db act h =
    elim (Bool-cases (ltb action.retries n)) [
      | inl more ↦
          let (db', e, done) = abandon-IsDone action.id (suc action.retries) db act h in
          rw (more, e) (_, db', refl, done, refl, refl)
      | inr over ↦
          let why = some (or_word reason exceeded) in
          let (db', e, done) = mark-IsDone failed t why action.id db in
          rw (over, e) (_, db', refl, done, refl, refl)
    ]

-- An object that is not out of time sees the signal that was sent last to its action, if the action
-- is in the table and the sender took it to be in a status that expects the signal; and it sees
-- what it saw before, if the sender did not.
pub check_signal-send_signal :
    (cmd : Signal) (status : ActionStatus) (now : ℕ) (action : OwnAction) (db : Db) (act : Action)
    → lookup action.id db.actions ≡ some act
    → out_of_time now action ≡ false
    → check_signal now action (send_signal cmd status action.id db)
      ≡ (if expects cmd status then command cmd else check_signal now action db)
unfolding check_signal send_signal action_signal action_signal_query as_check
check_signal-send_signal cmd status now action db act h in_time =
    elim (Bool-cases (expects cmd status)) [
      | inl sent ↦ rw (sent, in_time, lookup-update, ==_refl action.id, h)
      | inr refused ↦ rw (refused, in_time)
    ]
