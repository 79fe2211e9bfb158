-- ===== src/Db/Cascade/Progress.antt =====
-- What the cascade leaves behind: each row that it removes led to an action that it finished.
use Prim.Native.String.{String}
use mathlib.Core.Option
use native.Mathlib.Decide.{ℕ_discrete}
use senlin.Prelude.{
  ℕ, zero, suc, ◌≡◌, ◌≢◌, refl, ◌⊎◌, inl, inr, Option, none, some, List, [], ◌∷◌, arith,
  >>=-eq-some, Bool-cases, ◌==◌, All, Bool, true, false, if◌then◌else◌, subst,
}
use senlin.Table.{lookup, lookup-update}
use senlin.Db.{Action, ActionStatus, Dependency, Db}
use senlin.Db.Dependencies.{dependents, drop_depended}
use senlin.Db.Cascade.{finish, reason_or_default, finish_one, for_each, mark}

-- A row says that `q` waits for `p`.
abbrev pub Edge : List Dependency → ℕ → ℕ → Type 0
Edge [] p q = ⊥
Edge (d ∷ ds) p q = (d.depended ≡ p) × (d.dependent ≡ q) ⊎ Edge ds p q

-- The row of an action, if there is one, has the status and no owner.
abbrev pub IsDone : ActionStatus → Option Action → Type 0
IsDone status none = Unit
IsDone status (some act) = (act.status ≡ status) × (act.owner ≡ none)

-- The action is done and none waits for it.
pub record IsClosed (status : ActionStatus) (db : Db) (x : ℕ) : Type 0 where
  pub done : IsDone status (lookup x db.actions)
  pub free : (q : ℕ) → ¬ Edge db.dependencies x q

pub record Progress (status : ActionStatus) (before after : Db) : Type 0 where
  pub shrinks : (p q : ℕ) → Edge after.dependencies p q → Edge before.dependencies p q
  pub removed :
      (p q : ℕ)
      → Edge before.dependencies p q
      → Edge after.dependencies p q ⊎ (IsClosed status after q)
  pub keeps : (x : ℕ) → IsClosed status before x → IsClosed status after x

Edge-if :
    (a p q : ℕ) (d : Dependency) (ds rest : List Dependency) (b : Bool)
    → (d.depended == a) ≡ b
    → (Edge rest p q → Edge ds p q × (a ≢ p))
    → Edge (if b then rest else d ∷ rest) p q
    → Edge (d ∷ ds) p q × (a ≢ p)
Edge-if a p q d ds rest true e ih h = let (k, n) = ih h in (inr k, n)
Edge-if a p q d ds rest false e ih (inl k) = (inl k, λ same. ground arith)
Edge-if a p q d ds rest false e ih (inr k) = let (k', n) = ih k in (inr k', n)

pub Edge-drop_depended :
    (a p q : ℕ) (ds : List Dependency) → Edge (drop_depended a ds) p q → Edge ds p q × (a ≢ p)
unfolding drop_depended
Edge-drop_depended a p q [] h = absurd h
Edge-drop_depended a p q (d ∷ ds) h =
    Edge-if a p q d ds (drop_depended a ds) (d.depended == a) refl (Edge-drop_depended a p q ds) h

pub drop_depended-Edge :
    (a p q : ℕ) (ds : List Dependency) → Edge ds p q → a ≢ p → Edge (drop_depended a ds) p q
unfolding drop_depended
drop_depended-Edge a p q [] h n = absurd h
drop_depended-Edge a p q (d ∷ ds) (inl k) n = elim (Bool-cases (d.depended == a)) [
  | inl e ↦ absurd (n (ground arith))
  | inr e ↦ rw e (inl k)
]
drop_depended-Edge a p q (d ∷ ds) (inr k) n = elim (Bool-cases (d.depended == a)) [
  | inl e ↦ rw e (drop_depended-Edge a p q ds k n)
  | inr e ↦ rw e (inr (drop_depended-Edge a p q ds k n))
]

pub All-dependents :
    (P : ℕ → Type 0) (a q : ℕ) (ds : List Dependency) → All P (dependents a ds) → Edge ds a q → P q
unfolding dependents
All-dependents P a q [] h k = absurd k
All-dependents P a q (d ∷ ds) h (inl k) =
    let same : (d.depended == a) ≡ true = ground arith in subst P k.1 (rw same at h).0
All-dependents P a q (d ∷ ds) h (inr k) = elim (Bool-cases (d.depended == a)) [
  | inl e ↦ All-dependents P a q ds (rw e at h).1 k
  | inr e ↦ All-dependents P a q ds (rw e at h) k
]

module _ (status : ActionStatus) where
  Progress-refl : (db : Db) → Progress status db db
  Progress-refl db = record { shrinks = λ p q e. e; removed = λ p q e. inl e; keeps = λ x c. c }

  Progress-of_eq : {a b : Db} → some a ≡ some b → Progress status a b
  Progress-of_eq {a} {b} e =
      let same : a ≡ b = cc in subst (Progress status a) same (Progress-refl a)

  Progress-trans : {a b c : Db} → Progress status a b → Progress status b c → Progress status a c
  Progress-trans f g = record {
    shrinks = λ p q e. f.shrinks p q (g.shrinks p q e);
    removed =
        λ p q e. elim (f.removed p q e) [ inl e' ↦ g.removed p q e' | inr c ↦ inr (g.keeps q c) ];
    keeps = λ x c. g.keeps x (f.keeps x c);
  }

  abbrev Steps : (ℕ → Db → Option Db) → Type 0
  Steps step =
      (d : ℕ) (db db' : Db) → step d db ≡ some db' → Progress status db db' × IsClosed status db' d

  All-IsClosed :
      {a b : Db}
      → Progress status a b
      → (ds : List ℕ) → All (IsClosed status a) ds
      → All (IsClosed status b) ds
  All-IsClosed f [] h = tt
  All-IsClosed f (d ∷ ds) h = (f.keeps d h.0, All-IsClosed f ds h.1)

  for_each-Progress :
      (step : ℕ → Db → Option Db)
      → Steps step
      → (ds : List ℕ) (db db' : Db) → for_each step ds db ≡ some db'
      → Progress status db db' × All (IsClosed status db') ds
  unfolding for_each
  for_each-Progress step h [] db db' e = (Progress-of_eq e, tt)
  for_each-Progress step h (d ∷ ds) db db' e =
      let (mid, first, rest) = >>=-eq-some (step d db) (for_each step ds) e in
      let (p, c) = h d db mid first in
      let (p', cs) = for_each-Progress step h ds mid db' rest in
      (Progress-trans p p', (p'.keeps d c, cs))

  -- a row after its update
  IsDone-finish :
      (timestamp : ℕ) (reason : String) (o : Option Action)
      → IsDone status (Option.map (finish status reason timestamp) o)
  unfolding finish
  IsDone-finish timestamp reason none = tt
  IsDone-finish timestamp reason (some act) = (refl, refl)

  finish_one-IsDone :
      (timestamp : ℕ) (reason : Option String) (a x : ℕ) (db : Db)
      → (a ≡ x) ⊎ IsDone status (lookup x db.actions)
      → IsDone status (lookup x (finish_one status timestamp reason a db).actions)
  unfolding finish_one
  finish_one-IsDone timestamp reason a x db h =
      rw (lookup-update a x (finish status (reason_or_default reason) timestamp) db.actions)
        (elim (Bool-cases (a == x)) [
          | inl e ↦ rw e (IsDone-finish timestamp (reason_or_default reason) (lookup x db.actions))
          | inr e ↦ rw e (elim h [ inl same ↦ absurd (ground arith) | inr done ↦ done ])
        ])

  finish_one-IsClosed :
      (timestamp : ℕ) (reason : Option String) (a x : ℕ) (db : Db)
      → (a ≡ x) ⊎ IsClosed status db x
      → IsClosed status (finish_one status timestamp reason a db) x
  unfolding finish_one
  finish_one-IsClosed timestamp reason a x db (inl same) = record {
    done = finish_one-IsDone timestamp reason a x db (inl same);
    free = λ q e. (Edge-drop_depended a x q db.dependencies e).1 same;
  }
  finish_one-IsClosed timestamp reason a x db (inr c) = record {
    done = finish_one-IsDone timestamp reason a x db (inr c.done);
    free = λ q e. c.free q (Edge-drop_depended a x q db.dependencies e).0;
  }

  -- The update of one row, followed by steps that close all its dependents.
  finish_one-Progress :
      (timestamp : ℕ) (reason : Option String) (a : ℕ) (db out : Db)
      → Progress status (finish_one status timestamp reason a db) out
      → All (IsClosed status out) (dependents a db.dependencies)
      → Progress status db out × IsClosed status out a
  unfolding finish_one
  finish_one-Progress timestamp reason a db out p cs = (
    record {
      shrinks = λ x q e. (Edge-drop_depended a x q db.dependencies (p.shrinks x q e)).0;
      removed = λ x q e. elim (ℕ_discrete a x) [
        | yes same ↦ inr (All-dependents (IsClosed status out) a q db.dependencies cs (rw same e))
        | no other ↦ p.removed x q (drop_depended-Edge a x q db.dependencies e other)
      ];
      keeps = λ x c. p.keeps x (finish_one-IsClosed timestamp reason a x db (inr c));
    },
    p.keeps a (finish_one-IsClosed timestamp reason a a db (inl refl)),
  )

  pub mark-Progress :
      (timestamp fuel : ℕ) (reason : Option String) → Steps (mark status timestamp fuel reason)
  unfolding mark
  mark-Progress timestamp zero reason a db out e = cc
  mark-Progress timestamp (suc fuel) reason a db out e =
      let (p, cs) =
        for_each-Progress (mark status timestamp fuel none) (mark-Progress timestamp fuel none)
          (dependents a db.dependencies) (finish_one status timestamp reason a db) out e in
      finish_one-Progress timestamp reason a db out p cs
