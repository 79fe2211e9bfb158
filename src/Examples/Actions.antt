-- ===== src/Examples/Actions.antt =====
-- Acquisitions and the clean-up of an engine on the small database.
use senlin.Prelude.{ℕ, ◌≡◌, refl, some, List, arith}
use senlin.Table.{lookup}
use senlin.Db.{Action, Db}
use senlin.Db.Actions.{start, action_acquire, action_acquire_random_ready}
use senlin.Db.Actions.Ownership.{Acquires, action_acquire_lem}
use senlin.Db.Collect.{gc_by_engine}
use senlin.Db.Collect.Engine.{IsCollected, gc_by_engine-IsCollected}
use senlin.Db.Lifecycle.{here, next, acquire, Reachable-AllSound}
use senlin.Db.Lifecycle.Soundness.{is_sound, AllSound}
use senlin.Examples.{db, resize_action, ready_action}

row_one : lookup 1 db.actions ≡ some resize_action
unfolding lookup
row_one = refl

gc_by_engine-IsCollected_example :
    (db' : Db) × (gc_by_engine 50 99 db ≡ some db') × IsCollected db' 1
gc_by_engine-IsCollected_example =
    gc_by_engine-IsCollected 50 99 1 db resize_action ((refl, (refl, tt)), tt) row_one refl

action_acquire_lem_example : Acquires 4 51 99 db (action_acquire 4 51 99 db)
action_acquire_lem_example = action_acquire_lem 4 51 99 db

first_acquired : (action_acquire 4 51 99 db).0 ≡ some (start 51 99 ready_action)
unfolding action_acquire lookup
first_acquired = refl

abbrev the_first : List (ℕ × Action) → ℕ
the_first rows = 0

random_acquired :
    (action_acquire_random_ready the_first 51 99 db).0 ≡ some (4, start 51 99 ready_action)
unfolding action_acquire_random_ready
random_acquired = refl

all_sound : AllSound db.actions
unfolding lookup is_sound
all_sound a act e = ground (arith, e)

Reachable-AllSound_example : AllSound (action_acquire 4 51 99 db).1.actions
Reachable-AllSound_example = Reachable-AllSound all_sound (next here (acquire 4 51 99))
