-- ===== src/Examples/Engine.antt =====
-- Attempts of an engine to lock, where another engine is dead, and results that it records.
use senlin.Prelude.{◌≡◌, refl, Bool, false, none, some, [], ◌∷◌, arith}
use senlin.Prelude.Int.{negsuc}
use senlin.Table.{lookup}
use senlin.Db.{Db}
use senlin.Db.Locks.{node_scope}
use senlin.Db.Collect.{owned_ids}
use senlin.Engine.Locking.{Asker, acquire_cluster}
use senlin.Engine.Locking.Outcome.{holds, HasHolder, IsOwn, acquire_cluster_lem}
use senlin.Engine.Results.{res_retry, own, OwnAction, set_status}
use senlin.Engine.Results.Recorded.{ended, noted, counted, set_status_lem}
use senlin.Db.{running}
use senlin.Db.Cascade.Progress.{IsDone}
use senlin.Examples.{resize_action}
use senlin.Examples.{db}

-- Engine 50 has not reported since 10.
abbrev asker : Asker
asker = record { project = 7; now = 100; duration = 20; engine = some 51 }

abbrev locked_db : Db
locked_db = record db {
  cluster_locks = (10, record { action_ids = 1 ∷ []; semaphore = negsuc 0 }) ∷ [];
}

has_holder : HasHolder (lookup 10 locked_db.cluster_locks)
unfolding lookup
has_holder = omega arith

is_own : IsOwn asker 4 locked_db
unfolding owned_ids
is_own e h = ground (arith, h)

acquire_cluster_lem_example :
    (r : Bool) × (db' : Db) × (acquire_cluster asker 10 4 node_scope false locked_db
      ≡ some (r, db'))
    × (holds (lookup 10 db'.cluster_locks) 4 ≡ r)
acquire_cluster_lem_example =
    acquire_cluster_lem asker 10 4 node_scope false locked_db has_holder is_own

abbrev resize : OwnAction
resize = record {
  id = 1;
  status = own running;
  status_reason = none;
  retries = 2;
  start_time = 90;
  timeout = some 60;
}

row_one : lookup 1 db.actions ≡ some resize_action
unfolding lookup
row_one = refl

set_status_lem_example :
    (after : OwnAction) × (db' : Db) × (set_status 3 99 "exceeded" res_retry none resize db
      ≡ some (after, db'))
    × IsDone (ended 3 res_retry 2) (lookup 1 db'.actions)
    × (after.status ≡ noted 3 res_retry 2)
    × (after.retries ≡ counted 3 res_retry 2)
set_status_lem_example =
    set_status_lem 3 99 "exceeded" res_retry none resize db resize_action row_one
