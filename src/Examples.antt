-- ===== src/Examples.antt =====
-- Small databases and clusters on which the theorems are applied.
pub mod Cascade
pub mod Locks
pub mod Engine
pub mod Actions
pub mod Sizes
pub mod Victims
pub mod Placement
pub mod Execution
pub mod Handlers
pub mod Requests
pub mod Members
pub mod Schemas
use senlin.Prelude.{ℕ, Option, none, some, List, [], ◌∷◌}
use senlin.Prelude.Int.{pos}
use senlin.Node.{Node, NodeStatus}
use senlin.Db.{
  Action, ActionName, ActionStatus, node_create, cluster_resize, waiting, ready, running,
  Dependency, ClusterLock, Db,
}

abbrev action : ActionName → ActionStatus → Option ℕ → Action
action name status owner = record {
  name = name;
  target = 1;
  project = 7;
  owner = owner;
  status = status;
  status_reason = "";
  start_time = none;
  end_time = none;
  control = none;
  retries = 0;
}

-- Action 1, a resize run by engine 50, is waited for by 2, and that by 3; 4 is ready; 1 and 3 wait
-- for each other as well.
abbrev pub db : Db
db = record {
  actions =
      (1, action cluster_resize running (some 50))
      ∷ (2, action node_create waiting none)
      ∷ (3, action node_create waiting none)
      ∷ (4, action node_create ready none)
      ∷ [];
  dependencies =
      record { depended = 1; dependent = 2 }
      ∷ record { depended = 2; dependent = 3 }
      ∷ record { depended = 3; dependent = 1 }
      ∷ record { depended = 8; dependent = 4 }
      ∷ [];
  cluster_locks = (10, record { action_ids = 2 ∷ 3 ∷ []; semaphore = pos 2 }) ∷ [];
  node_locks = (20, 1) ∷ (21, 4) ∷ [];
  services = (50, 10) ∷ (51, 90) ∷ [];
}

abbrev pub resize_action : Action
resize_action = action cluster_resize running (some 50)

abbrev pub ready_action : Action
ready_action = action node_create ready none
