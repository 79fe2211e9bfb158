-- ===== src/Engine/Scheduler/Batches.antt =====
-- The loop of an engine ends, with no action left that it could take, and in batches.
use senlin.Prelude.{ℕ, zero, suc, ◌+◌, ◌≤◌, ◌≡◌, some, List, [], ◌++◌, length}
use senlin.Db.{Action, Db}
use senlin.Db.Actions.{candidates}
use senlin.Engine.Scheduler.{Event, Batching, launch_ready}
use senlin.Engine.Scheduler.Launches.{IsKeyed, IsChoice, launches, IsBatched}

-- What happens between the rounds leaves the keys of the table distinct, and makes at most that many
-- more actions ready and free before the round.
pub record IsOrderly (others : ℕ → Db → Db) (arrivals : ℕ → ℕ) : Type 0 where
  pub stays_keyed : (k : ℕ) (db : Db) → IsKeyed db.actions → IsKeyed (others k db).actions
  pub arriving :
      (k : ℕ) (db : Db)
      → length (candidates (others k db).actions) ≤ length (candidates db.actions) + arrivals k

-- The arrivals before as many rounds.
abbrev pub total : (ℕ → ℕ) → ℕ → ℕ
total arrivals zero = 0
total arrivals (suc k) = arrivals k + total arrivals k

module _ (choose : List (ℕ × Action) → ℕ) (chooses : IsChoice choose) (clock : ℕ → ℕ)
    (others : ℕ → Db → Db) (arrivals : ℕ → ℕ) (orderly : IsOrderly others arrivals) (engine : ℕ)
    (batching : Batching) where
  -- What the loop ends with, from that number of launches and that database.
  abbrev Launched : ℕ → ℕ → Db → Type 0
  Launched fuel n db =
      (events : List Event) × (end : Db) × (launch_ready choose clock others engine batching fuel n
          db
        ≡ some (events, end))
      × (candidates end.actions ≡ [])
      × (launches events ≤ length (candidates db.actions) + total arrivals fuel)
      × IsBatched batching.max_actions_per_batch n events

module _ (engine timestamp : ℕ) (db : Db) where
  module _ (batching : Batching) (keyed : IsKeyed db.actions) where
    abbrev Starts : List Event × ℕ × Db → Type 0
    Starts (first, n, db') =
        IsKeyed db'.actions
        × (length (candidates db'.actions) ≤ length (candidates db.actions))
        × ((rest : List Event)
            → IsBatched batching.max_actions_per_batch n rest
            → IsBatched batching.max_actions_per_batch 0 (first ++ rest))
