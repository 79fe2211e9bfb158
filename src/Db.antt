-- ===== src/Db.antt =====
-- The tables of senlin/db/sqlalchemy/models.py that actions and locks live in. Ids (UUIDs in the
-- database) and times are numbers; `none` is SQL's NULL. A transaction (`session_for_write`) is one
-- function from the database to the database.
pub mod Actions
pub mod Dependencies
pub mod Cascade
pub mod Locks
pub mod Lifecycle
pub mod Collect
use Prim.Native.String.{String}
use senlin.Prelude.{ℕ, Option, List, Bool, true, false}
use senlin.Prelude.Int.{ℤ}

-- The statuses of senlin/common/consts.py, with the SUSPENDED of the `Action` class.
pub data ActionStatus : Type 0 where
  init waiting ready running suspended succeeded failed cancelled : ActionStatus

-- `control`
pub data Signal : Type 0 where
  cancel suspend resume : Signal

-- CLUSTER_ACTION_NAMES and NODE_ACTION_NAMES; any other name is a custom action.
pub data ActionName : Type 0 where
  cluster_create cluster_delete cluster_update cluster_add_nodes cluster_del_nodes : ActionName
  cluster_resize cluster_check cluster_recover cluster_replace_nodes : ActionName
  cluster_scale_out cluster_scale_in : ActionName
  cluster_attach_policy cluster_detach_policy cluster_update_policy cluster_operation : ActionName
  node_create node_delete node_update node_join node_leave : ActionName
  node_check node_recover node_operation : ActionName
  custom : ActionName

pub record Action : Type 0 where
  pub name : ActionName
  pub target : ℕ
  pub project : ℕ
  pub owner : Option ℕ
  pub status : ActionStatus
  pub status_reason : String
  pub start_time : Option ℕ
  pub end_time : Option ℕ
  pub control : Option Signal
  -- `data['retries']`, 0 where it is missing
  pub retries : ℕ

-- A row of the dependency table: `dependent` waits for `depended`.
pub record Dependency : Type 0 where
  pub depended : ℕ
  pub dependent : ℕ

-- +1 is a lock for a node-level operation, -1 one of the whole cluster.
pub record ClusterLock : Type 0 where
  pub action_ids : List ℕ
  pub semaphore : ℤ

pub record Db : Type 0 where
  pub actions : List (ℕ × Action)
  pub dependencies : List Dependency
  pub cluster_locks : List (ℕ × ClusterLock)
  -- node id to action id
  pub node_locks : List (ℕ × ℕ)
  -- engine id to the time of its last report (`updated_at`)
  pub services : List (ℕ × ℕ)

unfoldable pub is_ready : ActionStatus → Bool
is_ready ready = true
is_ready _ = false

unfoldable pub is_waiting : ActionStatus → Bool
is_waiting waiting = true
is_waiting _ = false
