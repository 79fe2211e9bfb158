-- ===== src/Db/Lifecycle/Soundness.antt =====
-- What each function that writes the action table does to the owners of running and of finished
-- actions.
use Prim.Native.String.{String}
use mathlib.Core.Option
use senlin.Prelude.{
  ℕ, zero, suc, ◌≡◌, refl, sym, Bool, true, false, Option, none, some, List, [], ◌∷◌, ◌==◌,
  get_elem?, arith, Bool-cases, inl, inr, ◌⊎◌, >>=-eq-some, subst,
}
use senlin.Table.{lookup, insert, delete, update, lookup-insert, lookup-delete, lookup-update}
use senlin.Db.{
  Action, ActionStatus, Signal, Db, ready, running, succeeded, failed, cancelled, is_ready,
}
use senlin.Db.Actions.{
  owned_by_other, start, action_acquire, candidates, action_acquire_random_ready, abandon,
  action_abandon, action_signal, action_delete,
}
use senlin.Db.Dependencies.{
  dependents, Ids, one, many, set_waiting, set_all_waiting, dependency_add, depended_by, wake,
  action_check_status,
}
use senlin.Db.Cascade.{finish, reason_or_default, finish_one, for_each, mark}

-- A running action has an owner, and a finished one has none.
unfoldable pub is_sound : Action → Bool
is_sound act = elim act.status [
  | running ↦ elim act.owner [ none ↦ false | some _ ↦ true ]
  | succeeded ↦ elim act.owner [ none ↦ true | some _ ↦ false ]
  | failed ↦ elim act.owner [ none ↦ true | some _ ↦ false ]
  | cancelled ↦ elim act.owner [ none ↦ true | some _ ↦ false ]
  | _ ↦ true
]

abbrev pub AllSound : List (ℕ × Action) → Type 0
AllSound t = (a : ℕ) (act : Action) → lookup a t ≡ some act → is_sound act ≡ true

pub insert-AllSound :
    (k : ℕ) (v : Action) (t : List (ℕ × Action))
    → is_sound v ≡ true
    → AllSound t
    → AllSound (insert k v t)
insert-AllSound k v t sv st a act e = ground (arith, lookup-insert k a v t, st a act)

pub delete-AllSound : (k : ℕ) (t : List (ℕ × Action)) → AllSound t → AllSound (delete k t)
delete-AllSound k t st a act e = ground (arith, lookup-delete k a t, st a act)

map_sound :
    (f : Action → Action)
    → ((act : Action) → is_sound act ≡ true → is_sound (f act) ≡ true)
    → (o : Option Action) (act : Action) → ((b : Action) → o ≡ some b → is_sound b ≡ true)
    → Option.map f o ≡ some act
    → is_sound act ≡ true
map_sound f keep none act s e = cc
map_sound f keep (some b) act s e =
    let same : f b ≡ act = cc in subst (λ c. is_sound c ≡ true) same (keep b (s b refl))

pub update-AllSound :
    (k : ℕ) (f : Action → Action) (t : List (ℕ × Action))
    → ((act : Action) → is_sound act ≡ true → is_sound (f act) ≡ true)
    → AllSound t
    → AllSound (update k f t)
update-AllSound k f t keep st a act e = elim (Bool-cases (k == a)) [
  | inl same ↦ map_sound f keep (lookup a t) act (st a) (rw (lookup-update k a f t, same) at e)
  | inr other ↦ st a act (rw (lookup-update k a f t, other) at e)
]

set_all_waiting-AllSound :
    (as_ : List ℕ) (t : List (ℕ × Action)) → AllSound t → AllSound (set_all_waiting as_ t)
unfolding set_all_waiting set_waiting is_sound
set_all_waiting-AllSound [] t st = st
set_all_waiting-AllSound (a ∷ as_) t st =
    set_all_waiting-AllSound as_ (update a set_waiting t)
      (update-AllSound a set_waiting t waiting-sound st)
  where
    waiting-sound : (act : Action) → is_sound act ≡ true → is_sound (set_waiting act) ≡ true
    waiting-sound act s = refl

-- A table that is the old one, or the old one with a sound row saved.
abbrev pub Saves : List (ℕ × Action) → List (ℕ × Action) → Type 0
Saves t t' = (t' ≡ t) ⊎ ((a : ℕ) × (act : Action) × (t' ≡ insert a act t) × (is_sound act ≡ true))

pub Saves-AllSound : {t t' : List (ℕ × Action)} → Saves t t' → AllSound t → AllSound t'
Saves-AllSound {t} (inl e) st = subst AllSound (sym e) st
Saves-AllSound {t} (inr (a, act, e, s)) st = subst AllSound (sym e) (insert-AllSound a act t s st)

pub acquire-Saves :
    (a engine timestamp : ℕ) (db : Db) (o : Option Action)
    → lookup a db.actions ≡ o
    → Saves db.actions (action_acquire a engine timestamp db).1.actions
unfolding action_acquire is_sound
acquire-Saves a engine timestamp db none e = inl (ground (arith, e))
acquire-Saves a engine timestamp db (some act) e =
    elim (Bool-cases (owned_by_other act.owner engine)) [
      | inl other ↦ inl (ground (arith, e, other))
      | inr free ↦ elim (Bool-cases (is_ready act.status)) [
        | inl r ↦ inr (a, start engine timestamp act, ground (arith, e, free, r), refl)
        | inr r ↦ inl (ground (arith, e, free, r))
      ]
    ]

pub random-Saves :
    (choose : List (ℕ × Action) → ℕ) (engine timestamp : ℕ) (db : Db) (o : Option (ℕ × Action))
    → get_elem? (candidates db.actions) (choose (candidates db.actions)) ≡ o
    → Saves db.actions (action_acquire_random_ready choose engine timestamp db).1.actions
unfolding action_acquire_random_ready is_sound
random-Saves choose engine timestamp db none e = inl (ground (arith, e))
random-Saves choose engine timestamp db (some (a, act)) e =
    inr (a, start engine timestamp act, ground (arith, e), refl)

ready_sound : (act : Action) → act.status ≡ ready → is_sound act ≡ true
unfolding is_sound
ready_sound act e = rw e refl

abandon_sound :
    (values : Action → Action)
    → ((act : Action) → ((values act).status ≡ act.status) × ((values act).owner ≡ act.owner))
    → (act : Action) → is_sound (abandon values act) ≡ true
unfolding abandon
abandon_sound values keeps act = ready_sound _ (keeps _).0

pub abandon-Saves :
    (a : ℕ) (values : Action → Action)
    → ((act : Action) → ((values act).status ≡ act.status) × ((values act).owner ≡ act.owner))
    → (db db' : Db) (o : Option Action) → lookup a db.actions ≡ o
    → action_abandon a values db ≡ some db'
    → Saves db.actions db'.actions
unfolding action_abandon
abandon-Saves a values keeps db db' none e k = absurd (ground (arith, e, k))
abandon-Saves a values keeps db db' (some act) e k =
    inr (a, abandon values act, ground (arith, e, k), abandon_sound values keeps act)

pub wake_sound :
    (timestamp : ℕ) (act : Action) → is_sound act ≡ true → is_sound (wake timestamp act) ≡ true
unfolding wake is_sound
wake_sound timestamp act s = ground arith

pub check-Saves :
    (a timestamp : ℕ) (status : ActionStatus) (db db' : Db) (waits : List ℕ) (o : Option Action)
    → depended_by a db.dependencies ≡ waits
    → lookup a db.actions ≡ o
    → ((act : Action) → o ≡ some act → is_sound act ≡ true)
    → action_check_status a timestamp db ≡ some (status, db')
    → Saves db.actions db'.actions
unfolding action_check_status is_sound
check-Saves a timestamp status db db' (w ∷ ws) o d e s k = inl (ground (arith, d, e, k))
check-Saves a timestamp status db db' [] none d e s k = absurd (ground (arith, d, e, k))
check-Saves a timestamp status db db' [] (some act) d e s k =
    inr (a, wake timestamp act, ground (arith, d, e, k), wake_sound timestamp act (s act refl))

pub delete-actions :
    (a : ℕ) (db db' : Db) (o : Option Action)
    → lookup a db.actions ≡ o
    → action_delete a db ≡ some db'
    → (db'.actions ≡ db.actions) ⊎ (db'.actions ≡ delete a db.actions)
unfolding action_delete
delete-actions a db db' none e k = inl (ground (arith, e, k))
delete-actions a db db' (some act) e k = inr (ground (arith, e, k))

pub depend-AllSound :
    (ds es : Ids) (db db' : Db)
    → dependency_add ds es db ≡ some db'
    → AllSound db.actions
    → AllSound db'.actions
unfolding dependency_add
depend-AllSound (many ds) (many es) db db' e st = cc
depend-AllSound (many ds) (one b) db db' e st =
    let same : db'.actions ≡ set_all_waiting (b ∷ []) db.actions =
      unfold set_all_waiting in ground (arith, e) in
    subst AllSound (sym same) (set_all_waiting-AllSound (b ∷ []) db.actions st)
depend-AllSound (one a) (many es) db db' e st =
    let same : db'.actions ≡ set_all_waiting es db.actions = ground (arith, e) in
    subst AllSound (sym same) (set_all_waiting-AllSound es db.actions st)
depend-AllSound (one a) (one b) db db' e st =
    let same : db'.actions ≡ set_all_waiting (b ∷ []) db.actions = ground (arith, e) in
    subst AllSound (sym same) (set_all_waiting-AllSound (b ∷ []) db.actions st)

-- The statuses that an action ends in.
abbrev pub Ended : ActionStatus → Type 0
Ended status =
    (reason : String) (timestamp : ℕ) (act : Action)
    → is_sound (finish status reason timestamp act) ≡ true

pub for_each-AllSound :
    (step : ℕ → Db → Option Db)
    → ((d : ℕ) (db db' : Db) → step d db ≡ some db' → AllSound db.actions → AllSound db'.actions)
    → (ds : List ℕ) (db db' : Db) → for_each step ds db ≡ some db'
    → AllSound db.actions
    → AllSound db'.actions
unfolding for_each
for_each-AllSound step keep [] db db' e st =
    let same : db ≡ db' = cc in subst (λ d. AllSound d.actions) same st
for_each-AllSound step keep (d ∷ ds) db db' e st =
    let (mid, first, rest) = >>=-eq-some (step d db) (for_each step ds) e in
    for_each-AllSound step keep ds mid db' rest (keep d db mid first st)

pub mark-AllSound :
    (status : ActionStatus) (ended : Ended status) (timestamp fuel : ℕ) (reason : Option String)
    (a : ℕ) (db db' : Db)
    → mark status timestamp fuel reason a db ≡ some db'
    → AllSound db.actions
    → AllSound db'.actions
unfolding mark
mark-AllSound status ended timestamp zero reason a db db' e st = cc
mark-AllSound status ended timestamp (suc fuel) reason a db db' e st =
    for_each-AllSound (mark status timestamp fuel none)
      (λ d b b'. mark-AllSound status ended timestamp fuel none d b b')
      (dependents a db.dependencies) (finish_one status timestamp reason a db) db' e
      (unfold finish_one in
        update-AllSound a (finish status (reason_or_default reason) timestamp) db.actions
          (λ act s. ended (reason_or_default reason) timestamp act) st)

pub failed-Ended : Ended failed
unfolding finish is_sound
failed-Ended reason timestamp act = refl

pub cancelled-Ended : Ended cancelled
unfolding finish is_sound
cancelled-Ended reason timestamp act = refl

pub succeeded-Ended : Ended succeeded
unfolding finish is_sound
succeeded-Ended reason timestamp act = refl

pub signal-AllSound :
    (a : ℕ) (value : Signal) (db : Db)
    → AllSound db.actions
    → AllSound (action_signal a value db).actions
unfolding action_signal is_sound
signal-AllSound a value db st =
    update-AllSound a (λ act. record act { control = some value }) db.actions (λ act s. s) st
