-- ===== src/Db/Lifecycle.antt =====
-- The life of actions as steps of the database: the functions of senlin/db/sqlalchemy/api.py that
-- write the action table, in any order, with the values that the engine gives them: it updates an
-- action only to make it ready, since it stores an action only when that is new, and abandons one
-- with values that are neither a status nor an owner.
pub mod Soundness
pub mod Cleaning
use Prim.Native.String.{String}
use mathlib.Core.Option
use senlin.Prelude.{
  ℕ, zero, suc, ◌≡◌, refl, sym, Bool, true, false, Option, none, some, List, [], ◌∷◌, ◌==◌,
  get_elem?, if◌then◌else◌, arith, Bool-cases, inl, inr, ◌⊎◌, ◌>>=◌, >>=-eq-some, subst,
}
use senlin.Table.{lookup, insert, delete, update, lookup-insert, lookup-delete, lookup-update}
use senlin.Db.{Action, ActionStatus, Signal, Db, running, succeeded, failed, cancelled, is_ready}
use senlin.Db.Actions.{
  action_create, owned_by_other, start, action_acquire, candidates, action_acquire_random_ready,
  abandon, action_abandon, action_signal, action_delete, action_update, Selection,
  action_delete_by_target,
}
use senlin.Db.Collect.{gc_by_engine}
use senlin.Db.Lifecycle.Cleaning.{made_ready, ready-Saves, clean-AllSound, gc_by_engine-AllSound}
use senlin.Db.Dependencies.{
  dependents, Ids, one, many, set_waiting, set_all_waiting, dependency_add, depended_by, wake,
  action_check_status,
}
use senlin.Db.Cascade.{
  finish, reason_or_default, action_mark_succeeded, finish_one, for_each, mark, enough,
  action_mark_failed, action_mark_cancelled,
}
use senlin.Db.Lifecycle.Soundness.{
  is_sound, AllSound, insert-AllSound, delete-AllSound, update-AllSound, Saves-AllSound,
  acquire-Saves, random-Saves, abandon-Saves, signal-AllSound, delete-actions, depend-AllSound,
  check-Saves, mark-AllSound, succeeded-Ended, failed-Ended, cancelled-Ended,
}

-- One transaction. Actions are created sound and with a fresh id.
pub data Step (db : Db) : Db → Type 0 where
  create :
      (a : ℕ) (act : Action)
      → lookup a db.actions ≡ none
      → is_sound act ≡ true
      → Step db (action_create a act db)
  acquire : (a engine timestamp : ℕ) → Step db (action_acquire a engine timestamp db).1
  acquire_random :
      (choose : List (ℕ × Action) → ℕ) (engine timestamp : ℕ)
      → Step db (action_acquire_random_ready choose engine timestamp db).1
  set_ready : (a : ℕ) {db' : Db} → action_update a made_ready db ≡ some db' → Step db db'
  clean : (s : Selection) → Step db (action_delete_by_target s db)
  collect :
      (engine timestamp : ℕ) {db' : Db} → gc_by_engine engine timestamp db ≡ some db' → Step db db'
  abandon_one :
      (a : ℕ) (values : Action → Action) {db' : Db}
      → ((act : Action) → ((values act).status ≡ act.status) × ((values act).owner ≡ act.owner))
      → action_abandon a values db ≡ some db'
      → Step db db'
  signal : (a : ℕ) (value : Signal) → Step db (action_signal a value db)
  delete_one : (a : ℕ) {db' : Db} → action_delete a db ≡ some db' → Step db db'
  depend : (ds es : Ids) {db' : Db} → dependency_add ds es db ≡ some db' → Step db db'
  check :
      (a timestamp : ℕ) (status : ActionStatus) {db' : Db}
      → action_check_status a timestamp db ≡ some (status, db')
      → Step db db'
  succeed : (a timestamp : ℕ) → Step db (action_mark_succeeded a timestamp db)
  fail :
      (a timestamp : ℕ) (reason : Option String) {db' : Db}
      → action_mark_failed a timestamp reason db ≡ some db'
      → Step db db'
  cancel :
      (a timestamp : ℕ) (reason : Option String) {db' : Db}
      → action_mark_cancelled a timestamp reason db ≡ some db'
      → Step db db'

pub data Reachable (db : Db) : Db → Type 0 where
  here : Reachable db db
  next : {b c : Db} → Reachable db b → Step b c → Reachable db c

Step-AllSound : {db db' : Db} → Step db db' → AllSound db.actions → AllSound db'.actions
Step-AllSound {db} (create a act fresh s) st =
    unfold action_create in insert-AllSound a act db.actions s st
Step-AllSound {db} (acquire a engine timestamp) st =
    Saves-AllSound (acquire-Saves a engine timestamp db (lookup a db.actions) refl) st
Step-AllSound {db} (acquire_random choose engine timestamp) st =
    Saves-AllSound
      (random-Saves choose engine timestamp db
        (get_elem? (candidates db.actions) (choose (candidates db.actions))) refl)
      st
Step-AllSound {db} {db'} (abandon_one a values keeps e) st =
    Saves-AllSound (abandon-Saves a values keeps db db' (lookup a db.actions) refl e) st
Step-AllSound {db} {db'} (set_ready a e) st =
    Saves-AllSound (ready-Saves a db db' (lookup a db.actions) refl e) st
Step-AllSound {db} (clean s) st = clean-AllSound s db st
Step-AllSound {db} {db'} (collect engine timestamp e) st =
    gc_by_engine-AllSound engine timestamp db db' e st
Step-AllSound {db} (signal a value) st = signal-AllSound a value db st
Step-AllSound {db} {db'} (delete_one a e) st =
    elim (delete-actions a db db' (lookup a db.actions) refl e) [
      | inl same ↦ subst AllSound (sym same) st
      | inr less ↦ subst AllSound (sym less) (delete-AllSound a db.actions st)
    ]
Step-AllSound {db} {db'} (depend ds es e) st = depend-AllSound ds es db db' e st
Step-AllSound {db} {db'} (check a timestamp status e) st =
    Saves-AllSound
      (check-Saves a timestamp status db db' (depended_by a db.dependencies) (lookup a db.actions)
        refl refl (st a) e)
      st
Step-AllSound {db} (succeed a timestamp) st =
    unfold action_mark_succeeded in
    update-AllSound a (finish succeeded "Action completed successfully." timestamp) db.actions
      (λ act s. succeeded-Ended "Action completed successfully." timestamp act) st
Step-AllSound {db} {db'} (fail a timestamp reason e) st =
    mark-AllSound failed failed-Ended timestamp (enough db) reason a db db'
      (unfold action_mark_failed in e) st
Step-AllSound {db} {db'} (cancel a timestamp reason e) st =
    mark-AllSound cancelled cancelled-Ended timestamp (enough db) reason a db db'
      (unfold action_mark_cancelled in e) st

-- From a table of sound actions, in whatever order and by whichever engines actions are created,
-- acquired, abandoned, signalled, deleted, made to wait, made ready, checked, ended and cleaned up,
-- every running action has an owner and every succeeded, failed or cancelled one has none. Actions
-- are created sound, an update of a row is one that makes it ready, and an abandonment is given
-- neither a status nor an owner.
pub Reachable-AllSound :
    {db db' : Db} → AllSound db.actions → Reachable db db' → AllSound db'.actions
Reachable-AllSound st here = st
Reachable-AllSound st (next r s) = Step-AllSound s (Reachable-AllSound st r)
