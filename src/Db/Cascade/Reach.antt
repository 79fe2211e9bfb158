-- ===== src/Db/Cascade/Reach.antt =====
-- The cascade finishes exactly the actions that wait, directly or not, for the one it starts at.
use Prim.Native.String.{String}
use senlin.Prelude.{
  ℕ, zero, suc, ◌≡◌, refl, ◌∙◌, ◌↔◌, ◌⊎◌, inl, inr, false, Option, none, some, List, [], ◌∷◌, arith,
  >>=-eq-some, ◌==◌, Bool-cases, subst,
}
use native.Mathlib.Decide.{ℕ_discrete}
use senlin.Table.{lookup, lookup-update}
use senlin.Db.{ActionStatus, Dependency, Db}
use senlin.Db.Dependencies.{dependents}
use senlin.Db.Cascade.{finish, reason_or_default, finish_one, for_each, mark, enough}
use senlin.Db.Cascade.Termination.{mark-ends}
use senlin.Db.Cascade.Progress.{
  Edge, IsClosed, Progress, Edge-drop_depended, drop_depended-Edge, mark-Progress,
}

-- `x` is `a`, or waits for an action that is reached.
pub data Reach (ds : List Dependency) (a : ℕ) : ℕ → Type 0 where
  here : Reach ds a a
  next : {x y : ℕ} → Reach ds a x → Edge ds x y → Reach ds a y

Reach-trans : {ds : List Dependency} {a b c : ℕ} → Reach ds a b → Reach ds b c → Reach ds a c
Reach-trans r here = r
Reach-trans r (next s e) = next (Reach-trans r s) e

Reach-mono :
    {ds es : List Dependency} {a c : ℕ}
    → ((p q : ℕ) → Edge ds p q → Edge es p q)
    → Reach ds a c
    → Reach es a c
Reach-mono f here = here
Reach-mono f (next {x = x} {y = y} r e) = next (Reach-mono f r) (f x y e)

Reach-IsClosed :
    (status : ActionStatus) (db out : Db) {a x : ℕ}
    → Progress status db out
    → IsClosed status out a
    → Reach db.dependencies a x
    → IsClosed status out x
Reach-IsClosed status db out p c here = c
Reach-IsClosed status db out p c (next {x = x} {y = y} r e) = elim (p.removed x y e) [
  | inl still ↦ absurd ((Reach-IsClosed status db out p c r).free y still)
  | inr closed ↦ closed
]

-- What is not reached stays as it was.
record Local (before after : Db) (Reached : ℕ → Type 0) : Type 0 where
  shrinks : (p q : ℕ) → Edge after.dependencies p q → Edge before.dependencies p q
  row : (x : ℕ) → (lookup x after.actions ≡ lookup x before.actions) ⊎ Reached x
  edge : (p q : ℕ) → Edge before.dependencies p q → Edge after.dependencies p q ⊎ Reached p

Local-refl : (db : Db) (R : ℕ → Type 0) → Local db db R
Local-refl db R = record { shrinks = λ p q e. e; row = λ x. inl refl; edge = λ p q e. inl e }

Local-trans :
    {a b c : Db} {R S : ℕ → Type 0}
    → Local a b R
    → Local b c S
    → ((x : ℕ) → S x → R x)
    → Local a c R
Local-trans f g sub = record {
  shrinks = λ p q e. f.shrinks p q (g.shrinks p q e);
  row = λ x. elim (g.row x) [
    | inl e ↦ elim (f.row x) [ inl e' ↦ inl (e ∙ e') | inr r ↦ inr r ]
    | inr s ↦ inr (sub x s)
  ];
  edge = λ p q e. elim (f.edge p q e) [
    | inl e' ↦ elim (g.edge p q e') [ inl e'' ↦ inl e'' | inr s ↦ inr (sub p s) ]
    | inr r ↦ inr r
  ];
}

-- Reached from one of the ids.
abbrev FromAny : List Dependency → List ℕ → ℕ → Type 0
FromAny rows [] x = ⊥
FromAny rows (d ∷ ds) x = Reach rows d x ⊎ FromAny rows ds x

FromAny-mono :
    (rows rows' : List Dependency) (ds : List ℕ) (x : ℕ)
    → ((p q : ℕ) → Edge rows p q → Edge rows' p q)
    → FromAny rows ds x
    → FromAny rows' ds x
FromAny-mono rows rows' [] x f h = absurd h
FromAny-mono rows rows' (d ∷ ds) x f (inl r) = inl (Reach-mono f r)
FromAny-mono rows rows' (d ∷ ds) x f (inr h) = inr (FromAny-mono rows rows' ds x f h)

abbrev Steps : (ℕ → Db → Option Db) → Type 0
Steps step = (d : ℕ) (db db' : Db) → step d db ≡ some db' → Local db db' (Reach db.dependencies d)

for_each-Local :
    (step : ℕ → Db → Option Db)
    → Steps step
    → (ds : List ℕ) (db db' : Db) → for_each step ds db ≡ some db'
    → Local db db' (FromAny db.dependencies ds)
unfolding for_each
for_each-Local step h [] db db' e =
    let same : db ≡ db' = cc in
    subst (λ out. Local db out (FromAny db.dependencies [])) same (Local-refl db _)
for_each-Local step h (d ∷ ds) db db' e =
    let (mid, first, rest) = >>=-eq-some (step d db) (for_each step ds) e in
    let l = h d db mid first in
    let l' = for_each-Local step h ds mid db' rest in
    Local-trans
      (record {
        shrinks = l.shrinks;
        row = λ x. elim (l.row x) [ inl e ↦ inl e | inr r ↦ inr (inl r) ];
        edge = λ p q e. elim (l.edge p q e) [ inl e ↦ inl e | inr r ↦ inr (inl r) ];
      })
      l' (λ x s. inr (FromAny-mono mid.dependencies db.dependencies ds x l.shrinks s))

-- The dependents of an action are reached from it.
FromAny-dependents :
    (rows : List Dependency) (a x : ℕ) (ds : List Dependency)
    → ((q : ℕ) → Edge ds a q → Edge rows a q)
    → FromAny rows (dependents a ds) x
    → Reach rows a x
unfolding dependents
FromAny-dependents rows a x [] f h = absurd h
FromAny-dependents rows a x (d ∷ ds) f h = elim (Bool-cases (d.depended == a)) [
  | inl e ↦ elim (let k : FromAny rows (d.dependent ∷ dependents a ds) x = rw e at h in k) [
    | inl r ↦ Reach-trans (next here (f d.dependent (inl (ground arith, refl)))) r
    | inr k ↦ FromAny-dependents rows a x ds (λ q g. f q (inr g)) k
  ]
  | inr e ↦ FromAny-dependents rows a x ds (λ q g. f q (inr g)) (rw e at h)
]

finish_one-Local :
    (status : ActionStatus) (timestamp : ℕ) (reason : Option String) (a : ℕ) (db : Db)
    → Local db (finish_one status timestamp reason a db) (Reach db.dependencies a)
unfolding finish_one
finish_one-Local status timestamp reason a db = record {
  shrinks = λ p q e. (Edge-drop_depended a p q db.dependencies e).0;
  row = λ x. elim (ℕ_discrete a x) [
    | yes same ↦ inr (subst (Reach db.dependencies a) same here)
    | no other ↦
        let differs : (a == x) ≡ false = ground arith in
        inl (
          rw (
            lookup-update a x (finish status (reason_or_default reason) timestamp) db.actions,
            differs,
          ))
  ];
  edge = λ p q e. elim (ℕ_discrete a p) [
    | yes same ↦ inr (subst (Reach db.dependencies a) same here)
    | no other ↦ inl (drop_depended-Edge a p q db.dependencies e other)
  ];
}

mark-Local :
    (status : ActionStatus) (timestamp fuel : ℕ) (reason : Option String)
    → Steps (mark status timestamp fuel reason)
unfolding mark
mark-Local status timestamp zero reason a db out e = cc
mark-Local status timestamp (suc fuel) reason a db out e =
    let one = finish_one-Local status timestamp reason a db in
    let l =
      for_each-Local (mark status timestamp fuel none) (mark-Local status timestamp fuel none)
        (dependents a db.dependencies) (finish_one status timestamp reason a db) out e in
    Local-trans one l λ x s.
      FromAny-dependents db.dependencies a x db.dependencies (λ q g. g)
        (FromAny-mono (finish_one status timestamp reason a db).dependencies db.dependencies
          (dependents a db.dependencies) x one.shrinks s)

module _ (status : ActionStatus) (timestamp : ℕ) (reason : Option String) (a x : ℕ) (db : Db) where
  -- Marking an action as failed or as cancelled ends with every action that waits for it, directly
  -- or not, marked so and without an owner, and with no rows left of those that wait for these.
  pub mark-reached :
      Reach db.dependencies a x
      → (db' : Db) × (mark status timestamp (enough db) reason a db ≡ some db')
        × IsClosed status db' x
  mark-reached r =
      let (db', e, _) = mark-ends status timestamp reason a db in
      let (p, c) = mark-Progress status timestamp (enough db) reason a db db' e in
      (db', e, Reach-IsClosed status db db' p c r)

  -- Marking an action so ends with every action that does not wait for it as it
  -- was, and with the same actions waiting for that.
  pub mark-unreached :
      ¬ Reach db.dependencies a x
      → (db' : Db) × (mark status timestamp (enough db) reason a db ≡ some db')
        × (lookup x db'.actions ≡ lookup x db.actions)
        × ((q : ℕ) → Edge db'.dependencies x q ↔ Edge db.dependencies x q)
  mark-unreached n =
      let (db', e, _) = mark-ends status timestamp reason a db in
      let l = mark-Local status timestamp (enough db) reason a db db' e in
      (
        db',
        e,
        elim (l.row x) [ inl same ↦ same | inr r ↦ absurd (n r) ],
        λ q. (l.shrinks x q, λ g. elim (l.edge x q g) [ inl k ↦ k | inr r ↦ absurd (n r) ]),
      )
