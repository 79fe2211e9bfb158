-- ===== src/Db/Cascade.antt =====
-- `action_mark_succeeded`, `_mark_failed` and `_mark_cancelled` of senlin/db/sqlalchemy/api.py. The
-- last two recurse on the dependents, here on fuel; `none` means that the fuel ran out.
pub mod Termination
pub mod Progress
pub mod Reach
pub mod Frame
use Prim.Native.String.{String, len}
use senlin.Prelude.{
  ℕ, zero, suc, ◌+◌, Option, none, some, List, [], ◌∷◌, length, ◌>>=◌, ◌==◌, if◌then◌else◌,
}
use senlin.Table.{update}
use senlin.Db.{Action, ActionStatus, succeeded, failed, cancelled, Dependency, Db}
use senlin.Db.Dependencies.{dependents, drop_depended}

-- `values`
unfoldable pub finish : ActionStatus → String → ℕ → Action → Action
finish status reason timestamp act = record act {
  owner = none;
  status = status;
  status_reason = reason;
  end_time = some timestamp;
}

unfoldable pub action_mark_succeeded : ℕ → ℕ → Db → Db
unfolding finish
action_mark_succeeded a timestamp db = record db {
  actions = update a (finish succeeded "Action completed successfully." timestamp) db.actions;
  dependencies = drop_depended a db.dependencies;
}

-- `reason if reason else ...`: the empty string is falsy.
unfoldable pub reason_or_default : Option String → String
reason_or_default none = "Action execution failed"
reason_or_default (some reason) = if len reason == 0 then "Action execution failed" else reason

-- The row update and the deletion that stand before the loop over the dependents.
unfoldable pub finish_one : ActionStatus → ℕ → Option String → ℕ → Db → Db
unfolding finish reason_or_default
finish_one status timestamp reason a db = record db {
  actions = update a (finish status (reason_or_default reason) timestamp) db.actions;
  dependencies = drop_depended a db.dependencies;
}

-- `for d in dependents: step(d)`
unfoldable pub for_each : (ℕ → Db → Option Db) → List ℕ → Db → Option Db
for_each step [] db = some db
for_each step (d ∷ ds) db = do db' ← step d db; for_each step ds db'

-- `_mark_failed` and `_mark_cancelled`, which differ in the status.
unfoldable pub mark : ActionStatus → ℕ → ℕ → Option String → ℕ → Db → Option Db
unfolding finish_one for_each
mark status timestamp zero reason a db = none
mark status timestamp (suc fuel) reason a db =
    for_each (mark status timestamp fuel none) (dependents a db.dependencies)
      (finish_one status timestamp reason a db)

-- The recursion is at most as deep as there are dependency rows.
abbrev pub enough : Db → ℕ
enough db = suc (length db.dependencies)

unfoldable pub action_mark_failed : ℕ → ℕ → Option String → Db → Option Db
action_mark_failed a timestamp reason db = mark failed timestamp (enough db) reason a db

unfoldable pub action_mark_cancelled : ℕ → ℕ → Option String → Db → Option Db
action_mark_cancelled a timestamp reason db = mark cancelled timestamp (enough db) reason a db
