-- ===== src/Db/Actions/Ownership.antt =====
-- What an attempt of an engine to acquire an action ends with.
use senlin.Prelude.{
  ℕ, zero, suc, ◌≡◌, ◌≢◌, ◌⊎◌, inl, inr, Bool-cases, refl, sym, ◌∙◌, Bool, true, false, Option,
  none, some, List, [], ◌∷◌, ◌==◌, get_elem?, if◌then◌else◌, arith, ap, ◌&&◌,
}
use senlin.Table.{lookup, insert}
use senlin.Db.{Action, ActionStatus, Db, running, ready, is_ready}
use senlin.Db.Actions.{
  owned_by_other, start, action_acquire, is_free, candidates, action_acquire_random_ready,
}

-- A ready action that nobody owns, or the engine itself, can be acquired by it.
abbrev pub IsFor : ℕ → Action → Type 0
IsFor engine act = (act.status ≡ ready) × ((act.owner ≡ none) ⊎ (act.owner ≡ some engine))

-- The row runs, and is the engine's.
abbrev pub run_by : ℕ → ℕ → Action → Action
run_by engine timestamp act = record act {
  owner = some engine;
  start_time = some timestamp;
  status = running;
  status_reason = "The action is being processed.";
}

-- What an attempt ends with: nobody's row is there, or the row is the engine's to take and taken, or
-- it is not and is left.
abbrev pub Acquires : ℕ → ℕ → ℕ → Db → Option Action × Db → Type 0
Acquires a engine timestamp db (got, db') =
    ((lookup a db.actions ≡ none) × (got ≡ none) × (db' ≡ db))
    ⊎ ((act : Action) × (lookup a db.actions ≡ some act)
        × ((IsFor engine act
              × (got ≡ some (run_by engine timestamp act))
              × (db' ≡ record db { actions = insert a (run_by engine timestamp act) db.actions }))
            ⊎ ((¬ IsFor engine act) × (got ≡ none) × (db' ≡ db))))

owner-cases :
    (engine : ℕ) (o : Option ℕ)
    → (((o ≡ none) ⊎ (o ≡ some engine)) × (owned_by_other o engine ≡ false))
      ⊎ ((¬ ((o ≡ none) ⊎ (o ≡ some engine))) × (owned_by_other o engine ≡ true))
unfolding owned_by_other
owner-cases engine none = inl (inl refl, refl)
owner-cases engine (some o) = elim (Bool-cases (o == engine)) [
  | inl same ↦ inl (inr (ground (arith, same)), rw same refl)
  | inr other ↦ inr (λ h. ground (arith, h, other), rw other refl)
]

status-cases :
    (status : ActionStatus)
    → ((status ≡ ready) × (is_ready status ≡ true)) ⊎ ((status ≢ ready) × (is_ready status ≡ false))
unfolding is_ready
status-cases status = ground arith

-- An attempt of an engine to acquire an action whose row is there gets it exactly when it is ready and
-- owned by nobody or by the engine itself; then the row is running, owned by the engine, and started
-- at the time of the attempt, and nothing else changes. In all other cases the attempt gets nothing
-- and changes nothing.
pub action_acquire_lem :
    (a engine timestamp : ℕ) (db : Db)
    → Acquires a engine timestamp db (action_acquire a engine timestamp db)
unfolding action_acquire start
action_acquire_lem a engine timestamp db = by_row (lookup a db.actions) refl
  where
    by_row :
        (o : Option Action)
        → lookup a db.actions ≡ o
        → Acquires a engine timestamp db (action_acquire a engine timestamp db)
    by_row none e = rw (action_acquire, e) (inl (refl, refl, refl))
    by_row (some act) e = elim (owner-cases engine act.owner) [
      | inr (other, p) ↦
          rw (action_acquire, e, p) (inr (act, refl, inr (λ h. other h.1, refl, refl)))
      | inl (own, p) ↦ elim (status-cases act.status) [
        | inl (r, q) ↦ rw (action_acquire, e, p, q) (inr (act, refl, inl ((r, own), refl, refl)))
        | inr (busy, q) ↦
            rw (action_acquire, e, p, q) (inr (act, refl, inr (λ h. busy h.0, refl, refl)))
      ]
    ]

-- What a random acquisition of a row returns.
abbrev started : ℕ → ℕ → Option (ℕ × Action) → Option (ℕ × Action)
started engine timestamp none = none
started engine timestamp (some (a, act)) = some (a, start engine timestamp act)

-- What the query of `action_acquire_random_ready` selects is ready and free.
candidates-free :
    (t : List (ℕ × Action)) (i a : ℕ) (act : Action)
    → get_elem? (candidates t) i ≡ some (a, act)
    → (act.status ≡ ready) × (act.owner ≡ none)
unfolding candidates
candidates-free [] i a act h = cc
candidates-free ((b, act') ∷ t) i a act h =
    go (λ k. candidates-free t k a act) (is_ready act'.status && is_free act'.owner) refl i h
  where
    go :
        ((k : ℕ)
          → get_elem? (candidates t) k ≡ some (a, act)
          → (act.status ≡ ready) × (act.owner ≡ none))
        → (free : Bool) → (is_ready act'.status && is_free act'.owner) ≡ free
        → (k : ℕ)
        → get_elem? (if free then (b, act') ∷ candidates t else candidates t) k ≡ some (a, act)
        → (act.status ≡ ready) × (act.owner ≡ none)
    go ih false e k h = ih k h
    go ih true e zero h = ground arith
    go ih true e (suc k) h = ih k h

-- The row that a random acquisition writes.
random-row :
    (choose : List (ℕ × Action) → ℕ) (engine timestamp : ℕ) (db : Db) (o : Option (ℕ × Action))
    → get_elem? (candidates db.actions) (choose (candidates db.actions)) ≡ o
    → (action_acquire_random_ready choose engine timestamp db).0 ≡ started engine timestamp o
unfolding action_acquire_random_ready
random-row choose engine timestamp db none e = ground (arith, e)
random-row choose engine timestamp db (some (a, act)) e = ground (arith, e)

-- Whatever row the database picks, a random acquisition gets an action that was ready and free, and
-- now runs and is the engine's.
random_acquire_free :
    (choose : List (ℕ × Action) → ℕ) (engine timestamp : ℕ) (db : Db) (a : ℕ) (act : Action)
    → (action_acquire_random_ready choose engine timestamp db).0 ≡ some (a, act)
    → (before : Action) × (act ≡ start engine timestamp before)
      × (before.status ≡ ready)
      × (before.owner ≡ none)
      × (get_elem? (candidates db.actions) (choose (candidates db.actions)) ≡ some (a, before))
random_acquire_free choose engine timestamp db a act e =
    go (get_elem? (candidates db.actions) (choose (candidates db.actions))) refl
  where
    go :
        (o : Option (ℕ × Action))
        → get_elem? (candidates db.actions) (choose (candidates db.actions)) ≡ o
        → (before : Action) × (act ≡ start engine timestamp before)
          × (before.status ≡ ready)
          × (before.owner ≡ none)
          × (get_elem? (candidates db.actions) (choose (candidates db.actions)) ≡ some (a, before))
    go none k = cc (random-row choose engine timestamp db none k)
    go (some (b, before)) k =
        let found = random-row choose engine timestamp db (some (b, before)) k in
        let same : (b ≡ a) × (start engine timestamp before ≡ act) = ground (arith, found) in
        let (r, f) = candidates-free db.actions (choose (candidates db.actions)) b before k in
        (before, sym same.1, r, f, k ∙ ap (λ c. some (c, before)) same.0)
