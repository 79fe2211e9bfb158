-- ===== src/Db/Actions.antt =====
-- The action table of senlin/db/sqlalchemy/api.py: creation, acquisition, signals and deletion.
pub mod Ownership
use Prim.Native.String.{String}
use mathlib.Core.Option
use senlin.Prelude.{
  ℕ, zero, suc, Bool, true, false, ◌&&◌, ◌||◌, not, Option, none, some, List, [], ◌∷◌, ◌==◌,
  if◌then◌else◌, get_elem?, ◌>>=◌,
}
use senlin.Table.{lookup, insert, delete, update}
use senlin.Db.{
  Action, Db, Signal, ActionName, ActionStatus, ready, running, waiting, suspended, is_ready,
}

-- `action_create`: the key of the new row is a fresh UUID.
unfoldable pub action_create : ℕ → Action → Db → Db
action_create a values db = record db { actions = insert a values db.actions }

-- `action_get`, for a request of the project, or of any where `project_safe` is off (`none`)
unfoldable pub visible_to : Option ℕ → Action → Option Action
visible_to none act = some act
visible_to (some project) act = if act.project == project then some act else none

unfoldable pub action_get : Option ℕ → ℕ → Db → Option Action
unfolding visible_to
action_get project a db = do act ← lookup a db.actions; visible_to project act

-- `action.owner and action.owner != owner`
unfoldable pub owned_by_other : Option ℕ → ℕ → Bool
owned_by_other none engine = false
owned_by_other (some o) engine = not (o == engine)

-- What both acquisitions write.
unfoldable pub start : ℕ → ℕ → Action → Action
start engine timestamp act = record act {
  owner = some engine;
  start_time = some timestamp;
  status = running;
  status_reason = "The action is being processed.";
}

-- The acquired action, or `none`, and the database.
unfoldable pub action_acquire : ℕ → ℕ → ℕ → Db → Option Action × Db
unfolding owned_by_other is_ready start
action_acquire a engine timestamp db = elim (lookup a db.actions) [
  | none ↦ (none, db)
  | some act ↦
      if owned_by_other act.owner engine
      then (none, db)
      else if not (is_ready act.status)
      then (none, db)
      else (
        some (start engine timestamp act),
        record db { actions = insert a (start engine timestamp act) db.actions },
      )
]

-- `owner=None`
unfoldable pub is_free : Option ℕ → Bool
is_free none = true
is_free (some _) = false

-- The rows that the query of `action_acquire_random_ready` selects.
unfoldable pub candidates : List (ℕ × Action) → List (ℕ × Action)
unfolding is_ready is_free
candidates [] = []
candidates ((a, act) ∷ t) =
    let rest = candidates t in
    if is_ready act.status && is_free act.owner then (a, act) ∷ rest else rest

-- `order_by(func.random()).first()`: the database picks the row at the place `choose` of the
-- query's rows.
unfoldable pub action_acquire_random_ready :
    (List (ℕ × Action) → ℕ) → ℕ → ℕ → Db → Option (ℕ × Action) × Db
unfolding candidates start
action_acquire_random_ready choose engine timestamp db =
    let rows = candidates db.actions in
    elim (get_elem? rows (choose rows)) [
      | none ↦ (none, db)
      | some (a, act) ↦ (
        some (a, start engine timestamp act),
        record db { actions = insert a (start engine timestamp act) db.actions },
      )
    ]

-- `action_abandon`, whose values are given as what they make of the row; `none` is the
-- `AttributeError` of a missing row.
unfoldable pub abandon : (Action → Action) → Action → Action
abandon values act = values (record act {
  owner = none;
  start_time = none;
  status = ready;
  status_reason = "The action was abandoned.";
})

unfoldable pub action_abandon : ℕ → (Action → Action) → Db → Option Db
unfolding abandon
action_abandon a values db = elim (lookup a db.actions) [
  | none ↦ none
  | some act ↦ some (record db { actions = insert a (abandon values act) db.actions })
]

unfoldable pub action_signal : ℕ → Signal → Db → Db
action_signal a value db = record db {
  actions = update a (λ act. record act { control = some value }) db.actions;
}

unfoldable pub action_signal_query : ℕ → Db → Option Signal
action_signal_query a db = do act ← lookup a db.actions; act.control

unfoldable pub is_busy : ActionStatus → Bool
is_busy waiting = true
is_busy running = true
is_busy suspended = true
is_busy _ = false

-- `none` is the exception EResourceBusy.
unfoldable pub action_delete : ℕ → Db → Option Db
unfolding is_busy
action_delete a db = elim (lookup a db.actions) [
  | none ↦ some db
  | some act ↦
      if is_busy act.status then none else some (record db { actions = delete a db.actions })
]

-- `action_update`, whose values are given as what they make of the row; `none` is the exception
-- ResourceNotFound.
unfoldable pub action_update : ℕ → (Action → Action) → Db → Option Db
action_update a values db = elim (lookup a db.actions) [
  | none ↦ none
  | some act ↦ some (record db { actions = insert a (values act) db.actions })
]

-- What `action_delete_by_target` is asked for. The lists are given as the tests whether a value is in
-- them; `none` is a list that is empty or left out. The project is `none` where `project_safe` is
-- off.
pub record Selection : Type 0 where
  pub target : ℕ
  pub project : Option ℕ
  pub action : Option (ActionName → Bool)
  pub action_excluded : Option (ActionName → Bool)
  pub status : Option (ActionStatus → Bool)

-- A filter that is made only where there is something to compare with.
abbrev pub is_in {ℓ} : {A : Type ℓ} → Option (A → Bool) → A → Bool
is_in none v = true
is_in (some test) v = test v

abbrev pub is_not_in {ℓ} : {A : Type ℓ} → Option (A → Bool) → A → Bool
is_not_in none v = true
is_not_in (some test) v = not (test v)

unfoldable pub is_selected : Selection → Action → Bool
is_selected s act =
    (act.target == s.target)
    && is_in (Option.map (λ p. (λ q. q == p)) s.project) act.project
    && is_in s.action act.name
    && is_not_in s.action_excluded act.name
    && is_in s.status act.status

unfoldable pub selected_ids : Selection → List (ℕ × Action) → List ℕ
unfolding is_selected
selected_ids s [] = []
selected_ids s ((a, act) ∷ t) =
    let rest = selected_ids s t in if is_selected s act then a ∷ rest else rest

unfoldable pub delete_all : List ℕ → List (ℕ × Action) → List (ℕ × Action)
delete_all [] t = t
delete_all (a ∷ as_) t = delete_all as_ (delete a t)

-- Nothing is deleted where both lists of actions are given.
unfoldable pub action_delete_by_target : Selection → Db → Db
unfolding selected_ids delete_all
action_delete_by_target s db =
    let cleaned = record db { actions = delete_all (selected_ids s db.actions) db.actions } in
    elim s.action [
      | none ↦ cleaned
      | some _ ↦ elim s.action_excluded [ none ↦ cleaned | some _ ↦ db ]
    ]
