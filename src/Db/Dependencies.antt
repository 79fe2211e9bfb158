-- ===== src/Db/Dependencies.antt =====
-- The dependency table of senlin/db/sqlalchemy/api.py: `dependency_get_depended`,
-- `dependency_get_dependents`, `dependency_add` and `action_check_status`.
use senlin.Prelude.{ℕ, Option, none, some, List, [], ◌∷◌, ◌++◌, map, ◌==◌, if◌then◌else◌}
use senlin.Table.{lookup, update, insert}
use senlin.Db.{Action, waiting, ready, is_waiting, ActionStatus, Dependency, Db}

-- The rows with that `depended`, as their dependents.
unfoldable pub dependents : ℕ → List Dependency → List ℕ
dependents a [] = []
dependents a (d ∷ ds) =
    let rest = dependents a ds in if d.depended == a then d.dependent ∷ rest else rest

-- `dependency_get_depended`
unfoldable pub depended_by : ℕ → List Dependency → List ℕ
depended_by a [] = []
depended_by a (d ∷ ds) =
    let rest = depended_by a ds in if d.dependent == a then d.depended ∷ rest else rest

-- `query.filter_by(depended=a).delete()`
unfoldable pub drop_depended : ℕ → List Dependency → List Dependency
drop_depended a [] = []
drop_depended a (d ∷ ds) =
    let rest = drop_depended a ds in if d.depended == a then rest else d ∷ rest

-- `depended` and `dependent` of `dependency_add`, each an id or a list of ids.
pub data Ids : Type 0 where
  one : ℕ → Ids
  many : List ℕ → Ids

unfoldable pub set_waiting : Action → Action
set_waiting act = record act { status = waiting; status_reason = "Waiting for depended actions." }

-- `query.filter(Action.id.in_(ids)).update(...)`
unfoldable pub set_all_waiting : List ℕ → List (ℕ × Action) → List (ℕ × Action)
set_all_waiting [] t = t
set_all_waiting (a ∷ as_) t = set_all_waiting as_ (update a set_waiting t)

abbrev edge : ℕ → ℕ → Dependency
edge depended dependent = record { depended = depended; dependent = dependent }

-- `none` is the exception NotSupport.
unfoldable pub dependency_add : Ids → Ids → Db → Option Db
dependency_add (many ds) (many es) db = none
dependency_add (many ds) (one e) db = some (record db {
  dependencies = db.dependencies ++ map (λ d. edge d e) ds;
  actions = update e set_waiting db.actions;
})
dependency_add (one d) (many es) db = some (record db {
  dependencies = db.dependencies ++ map (edge d) es;
  actions = set_all_waiting es db.actions;
})
dependency_add (one d) (one e) db = some (record db {
  dependencies = db.dependencies ++ edge d e ∷ [];
  actions = set_all_waiting (e ∷ []) db.actions;
})

-- The second half of `action_check_status`, for an action that depends on none.
unfoldable pub wake : ℕ → Action → Action
wake timestamp act =
    if is_waiting act.status
    then record act {
      status = ready;
      status_reason = "All depended actions completed.";
      end_time = some timestamp;
    }
    else act

-- `none` is the `AttributeError` of an action that is not there.
unfoldable pub action_check_status : ℕ → ℕ → Db → Option (ActionStatus × Db)
action_check_status a timestamp db = elim (depended_by a db.dependencies) [
  | _ ∷ _ ↦ some (waiting, db)
  | [] ↦ elim (lookup a db.actions) [
    | none ↦ none
    | some act ↦
        let act' = wake timestamp act in
        some (act'.status, record db { actions = insert a act' db.actions })
  ]
]
