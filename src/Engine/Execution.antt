-- ===== src/Engine/Execution.antt =====
-- `execute` of senlin/engine/actions/cluster_action.py and senlin/engine/actions/node_action.py: an
-- action's code runs under locks. What the code and the policy checks do to the database are
-- arguments.
pub mod ClusterLevel
pub mod NodeLevel
use senlin.Prelude.{ℕ, Option, none, some, Bool, true, false, if◌then◌else◌, ◌>>=◌}
use senlin.Db.{ActionName, cluster_delete, Db}
use senlin.Db.Locks.{Scope, cluster_scope, node_scope, cluster_lock_release, node_lock_release}
use senlin.Engine.Locking.{Asker, acquire_cluster, acquire_node}
use senlin.Engine.Results.{ActionResult, res_ok, res_error, res_retry}
use senlin.Engine.Waiting.{Ended, returned, raised}

-- `data['status']` after a policy check, which may raise an exception.
pub data Checked : Type 0 where
  check_ok check_error check_raised : Checked

-- The end of `_execute`, after a policy check.
unfoldable pub as_result : Checked × Db → Ended × Db
as_result (check_ok, db) = (returned res_ok, db)
as_result (check_error, db) = (returned res_error, db)
as_result (check_raised, db) = (raised, db)

-- The check after the method, which only a success has.
unfoldable pub check_after : (Db → Checked × Db) → Ended × Db → Ended × Db
unfolding as_result
check_after after (returned res_ok, db) = as_result (after db)
check_after after (ended, db) = (ended, db)

-- `getattr(self, method_name, None)`
unfoldable pub run_method : Option (Db → Ended × Db) → Db → Ended × Db
run_method none db = (returned res_error, db)
run_method (some method) db = method db

unfoldable pub after_before :
    (Db → Checked × Db) → Option (Db → Ended × Db) → Checked × Db → Ended × Db
unfolding check_after run_method
after_before after method (check_ok, db) = check_after after (run_method method db)
after_before after method (check_error, db) = (returned res_error, db)
after_before after method (check_raised, db) = (raised, db)

-- `_execute` of ClusterAction
unfoldable pub execute_checked :
    (Db → Checked × Db) → (Db → Checked × Db) → Option (Db → Ended × Db) → Db → Ended × Db
unfolding after_before
execute_checked before after method db = after_before after method (before db)

-- `self.action == consts.CLUSTER_DELETE`
unfoldable pub is_forced : ActionName → Bool
is_forced cluster_delete = true
is_forced _ = false

-- The `finally` of a cluster action.
unfoldable pub release_cluster : ℕ → ℕ → Scope → Ended × Db → Ended × Db
release_cluster cluster_id action_id scope (ended, db) =
    (ended, (cluster_lock_release cluster_id action_id scope db).1)

-- `execute` of ClusterAction; `none` is an attempt at the lock that raises an exception.
unfoldable pub cluster_execute :
    Asker → ActionName → ℕ → ℕ → (Db → Ended × Db) → Db → Option (Ended × Db)
unfolding is_forced release_cluster
cluster_execute asker name target id body db = do
  (got, locked) ← acquire_cluster asker target id cluster_scope (is_forced name) db
  some (
      if got
      then release_cluster target id cluster_scope (body locked)
      else (returned res_retry, locked))

-- `saved_cluster_id and self.cause == consts.CAUSE_RPC`
unfoldable pub guarded : Option ℕ → Bool → Option ℕ
guarded cluster_id true = cluster_id
guarded cluster_id false = none

-- The `finally` of a node action.
unfoldable pub release_node : ℕ → ℕ → Option ℕ → Ended × Db → Ended × Db
unfolding release_cluster
release_node node_id action_id none (ended, db) =
    (ended, (node_lock_release node_id action_id db).1)
release_node node_id action_id (some cluster_id) (ended, db) =
    release_cluster cluster_id action_id node_scope
      (ended, (node_lock_release node_id action_id db).1)

-- The check after the method, which is for the cluster's policies.
unfoldable pub check_guarded : Option ℕ → (Db → Checked × Db) → Ended × Db → Ended × Db
unfolding check_after
check_guarded none after result = result
check_guarded (some cluster_id) after result = check_after after result

-- The `try` of a node action, with its `finally`.
unfoldable pub node_locked :
    Asker
    → ℕ
    → ℕ
    → Option ℕ
    → (Db → Checked × Db)
    → Option (Db → Ended × Db)
    → Db
    → Option (Ended × Db)
unfolding run_method check_guarded release_node
node_locked asker node_id id guard after method db = do
  (got, locked) ← acquire_node asker node_id id false db
  some (
      release_node node_id id guard (
        if got
        then check_guarded guard after (run_method method locked)
        else (returned res_retry, locked)))

-- The end of the first part of `execute`, in which the cluster is locked. An exception of the check
-- passes the release by.
unfoldable pub after_check :
    Asker
    → ℕ
    → ℕ
    → ℕ
    → (Db → Checked × Db)
    → Option (Db → Ended × Db)
    → Checked × Db
    → Option (Ended × Db)
unfolding node_locked release_cluster
after_check asker node_id id cluster_id after method (check_ok, db) =
    node_locked asker node_id id (some cluster_id) after method db
after_check asker node_id id cluster_id after method (check_error, db) =
    some (release_cluster cluster_id id node_scope (returned res_error, db))
after_check asker node_id id cluster_id after method (check_raised, db) = some (raised, db)

-- `execute` of NodeAction; the first `Option` is the cluster that is to be locked.
unfoldable pub node_execute :
    Asker
    → ℕ
    → ℕ
    → Option ℕ
    → (Db → Checked × Db)
    → (Db → Checked × Db)
    → Option (Db → Ended × Db)
    → Db
    → Option (Ended × Db)
unfolding node_locked after_check
node_execute asker node_id id none before after method db =
    node_locked asker node_id id none after method db
node_execute asker node_id id (some cluster_id) before after method db = do
  (got, locked) ← acquire_cluster asker cluster_id id node_scope false db
  (if got
      then after_check asker node_id id cluster_id after method (before locked)
      else some (returned res_retry, locked))
