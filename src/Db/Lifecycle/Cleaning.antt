-- ===== src/Db/Lifecycle/Cleaning.antt =====
-- What an update to READY, a deletion of the actions of a target and the clean-up of an engine do to
-- the owners of running and of finished actions.
use senlin.Prelude.{ℕ, ◌≡◌, refl, Option, none, some, List, [], ◌∷◌, Bool, inr, arith}
use senlin.Table.{lookup, delete}
use senlin.Db.{Action, ActionName, Db, ready, failed}
use senlin.Db.Actions.{action_update, Selection, delete_all, selected_ids, action_delete_by_target}
use senlin.Db.Cascade.{action_mark_failed}
use senlin.Db.Collect.{collect_action, gc_by_engine, owned_ids}
use senlin.Db.Lifecycle.Soundness.{
  is_sound, AllSound, Saves, delete-AllSound, for_each-AllSound, mark-AllSound, failed-Ended,
}

-- `{'status': 'READY'}`
abbrev pub made_ready : Action → Action
made_ready act = record act { status = ready }

pub ready-Saves :
    (a : ℕ) (db db' : Db) (o : Option Action)
    → lookup a db.actions ≡ o
    → action_update a made_ready db ≡ some db'
    → Saves db.actions db'.actions
unfolding action_update is_sound
ready-Saves a db db' none e k = absurd (ground (arith, e, k))
ready-Saves a db db' (some act) e k = inr (a, made_ready act, ground (arith, e, k), refl)

delete_all-AllSound :
    (ids : List ℕ) (t : List (ℕ × Action)) → AllSound t → AllSound (delete_all ids t)
unfolding delete_all
delete_all-AllSound [] t st = st
delete_all-AllSound (a ∷ as_) t st = delete_all-AllSound as_ (delete a t) (delete-AllSound a t st)

pub clean-AllSound :
    (s : Selection) (db : Db)
    → AllSound db.actions
    → AllSound (action_delete_by_target s db).actions
unfolding action_delete_by_target
clean-AllSound s db st = by_lists s.action s.action_excluded refl refl
  where
    cleaned : AllSound (delete_all (selected_ids s db.actions) db.actions)
    cleaned = delete_all-AllSound (selected_ids s db.actions) db.actions st

    by_lists :
        (o : Option (ActionName → Bool)) (x : Option (ActionName → Bool))
        → s.action ≡ o
        → s.action_excluded ≡ x
        → AllSound (action_delete_by_target s db).actions
    by_lists none x e f = rw (action_delete_by_target, e) cleaned
    by_lists (some _) none e f = rw (action_delete_by_target, e, f) cleaned
    by_lists (some _) (some _) e f = rw (action_delete_by_target, e, f) st

collect-AllSound :
    (timestamp a : ℕ) (db db' : Db)
    → collect_action timestamp a db ≡ some db'
    → AllSound db.actions
    → AllSound db'.actions
unfolding collect_action action_mark_failed
collect-AllSound timestamp a db db' e st =
    mark-AllSound failed failed-Ended timestamp _ (some "Engine failure") a _ db' e st

pub gc_by_engine-AllSound :
    (engine timestamp : ℕ) (db db' : Db)
    → gc_by_engine engine timestamp db ≡ some db'
    → AllSound db.actions
    → AllSound db'.actions
unfolding gc_by_engine
gc_by_engine-AllSound engine timestamp db db' e st =
    for_each-AllSound (collect_action timestamp) (λ d b b'. collect-AllSound timestamp d b b')
      (owned_ids engine db.actions) db db' e st
