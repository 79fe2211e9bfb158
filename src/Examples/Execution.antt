-- ===== src/Examples/Execution.antt =====
-- Runs of actions on the small database: under locks, in the wait for dependents, and by the
-- scheduler.
use senlin.Prelude.{
  ℕ, ◌+◌, ◌≤◌, suc, ◌≡◌, refl, ◌⊎◌, false, true, none, some, List, [], ◌∷◌, arith, ◌==◌, ◌&&◌, not,
  contains, if◌then◌else◌,
}
use senlin.Table.{lookup}
use senlin.Db.{Action, Db, cluster_resize}
use senlin.Db.Locks.{cluster_scope, node_scope, cluster_lock_acquire}
use senlin.Db.Locks.Holding.{free, shared, Represents, lock, unlock}
use senlin.Db.Locks.NodeLocks.{owns}
use senlin.Engine.Locking.{Asker}
use senlin.Engine.Results.{own, OwnAction, res_error}
use senlin.Engine.Waiting.{Ended, returned, raised, wait_for_dependents}
use senlin.Engine.Waiting.Reasons.{IsReason}
use senlin.Engine.Waiting.Ends.{wait_for_dependents-ends}
use senlin.Engine.Execution.{
  Checked, check_ok, check_raised, run_method, cluster_execute, node_locked, node_execute,
}
use senlin.Engine.Execution.ClusterLevel.{cluster_execute-Represents}
use senlin.Engine.Execution.NodeLevel.{node_locked-owns}
use senlin.Engine.Execution.NodeLevel.Restored.{Keeps, node_execute-Represents}
use senlin.Engine.Scheduler.{Batching}
use senlin.Engine.Scheduler.Launches.{keys}
use senlin.Db.{waiting}
use senlin.Examples.{db, ready_action}

abbrev asker : Asker
asker = record { project = 7; now = 100; duration = 20; engine = some 51 }

abbrev fails : Db → Ended × Db
fails d = (returned res_error, d)

abbrev passes : Db → Checked × Db
passes d = (check_ok, d)

abbrev breaks : Db → Checked × Db
breaks d = (check_raised, d)

-- Nobody holds cluster 12.
nobody : Represents (lookup 12 db.cluster_locks) free
unfolding lookup
nobody = refl

may_lock : (lock free 5 cluster_scope).0 ≡ true
unfolding lock
may_lock = refl

cluster_execute-Represents_example :
    (db' : Db) × (cluster_execute asker cluster_resize 12 5 fails db
      ≡ some ((fails (cluster_lock_acquire 12 5 cluster_scope db).1).0, db'))
    × Represents (lookup 12 db'.cluster_locks) (unlock (lock free 5 cluster_scope).1 5).1
cluster_execute-Represents_example =
    cluster_execute-Represents asker cluster_resize 12 5 fails db free nobody may_lock refl

node_locked-owns_example :
    (ended : Ended) × (db' : Db) × (node_locked asker 20 4 none passes (some fails) db
      ≡ some (ended, db'))
    × (owns (lookup 20 db'.node_locks) 4 ≡ false)
node_locked-owns_example = node_locked-owns asker 20 4 none passes (some fails) db

two_holders : Represents (lookup 10 db.cluster_locks) (shared (2 ∷ 3 ∷ []))
unfolding lookup
two_holders = (refl, omega arith, (refl, (refl, tt)))

method-Keeps : Keeps 10 (run_method (some fails))
unfolding run_method
method-Keeps d = refl

node_execute-Represents_example :
    (ended : Ended) × (db' : Db) × (node_execute asker 22 5 (some 10) breaks passes (some fails) db
      ≡ some (ended, db'))
    × (Represents (lookup 10 db'.cluster_locks) (shared (2 ∷ 3 ∷ []))
        ⊎ ((ended ≡ raised)
            × ((breaks (cluster_lock_acquire 10 5 node_scope db).1).0 ≡ check_raised)
            × Represents (lookup 10 db'.cluster_locks) (lock (shared (2 ∷ 3 ∷ [])) 5 node_scope).1))
node_execute-Represents_example =
    node_execute-Represents asker 22 5 10 (shared (2 ∷ 3 ∷ [])) breaks passes (some fails) db refl
      two_holders (λ d. refl) (λ d. refl) method-Keeps

-- Action 2 waits for action 1, which never ends.
abbrev waiter : OwnAction
waiter = record {
  id = 2;
  status = own waiting;
  status_reason = none;
  retries = 0;
  start_time = 40;
  timeout = some 30;
}

abbrev clock : ℕ → ℕ
clock k = 41 + (k + (k + k))

clock_advances : (k : ℕ) → clock k + 3 ≤ clock (suc k)
clock_advances k = omega arith

abbrev no_one : ℕ → Db → Db
no_one k d = d

wait_for_dependents-ends_example :
    (ended : Ended) × (db' : Db) × (k : ℕ) × (wait_for_dependents clock no_one 11 0 waiter db
      ≡ some (ended, db'))
    × IsReason (clock k) waiter db' ended
wait_for_dependents-ends_example =
    wait_for_dependents-ends clock no_one waiter 30 10 db refl clock_advances (omega arith)

abbrev batching : Batching
batching = record { max_actions_per_batch = 1; custom_has_node = false }

abbrev first_row : List (ℕ × Action) → ℕ
first_row rows = 0

-- Before the second round one more action may be ready.
abbrev wakes : ℕ → ℕ
wakes k = if k == 2 then 1 else 0

abbrev woken : ℕ → Db → Db
woken k d =
    if (k == 2) && not (contains (keys d.actions) 30)
    then record d { actions = (30, ready_action) ∷ d.actions }
    else d
