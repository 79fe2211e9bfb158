-- ===== src/Db/Cascade/Termination.antt =====
-- The recursion of `_mark_failed` and `_mark_cancelled` ends, also on cyclic dependencies: each
-- level removes the rows that it follows.
use Prim.Native.String.{String}
use senlin.Prelude.{
  ℕ, zero, suc, ◌+◌, ◌≤◌, ◌<◌, ◌≡◌, refl, Option, none, some, List, [], ◌∷◌, length, arith,
}
use senlin.Db.{ActionStatus, Dependency, Db}
use senlin.Db.Dependencies.{dependents, drop_depended}
use senlin.Db.Cascade.{finish_one, for_each, mark, enough}

pub length-drop_depended :
    (a : ℕ) (ds : List Dependency)
    → length (drop_depended a ds) + length (dependents a ds) ≡ length ds
unfolding drop_depended dependents
length-drop_depended a [] = refl
length-drop_depended a (d ∷ ds) = ground (arith, length-drop_depended a ds)

-- The step returns, and adds no dependency rows, on databases with fewer than `bound` of them.
abbrev Returns : (ℕ → Db → Option Db) → ℕ → Type 0
Returns step bound =
    (d : ℕ) (db : Db)
    → length db.dependencies < bound
    → (db' : Db) × (step d db ≡ some db') × (length db'.dependencies ≤ length db.dependencies)

for_each-Returns :
    (step : ℕ → Db → Option Db) (bound : ℕ)
    → Returns step bound
    → (ds : List ℕ) (db : Db) → length db.dependencies < bound
    → (db' : Db) × (for_each step ds db ≡ some db')
      × (length db'.dependencies ≤ length db.dependencies)
unfolding for_each
for_each-Returns step bound total [] db h = (db, refl, omega arith)
for_each-Returns step bound total (d ∷ ds) db h =
    let (db', e, l) = total d db h in
    let (db'', e', l') = for_each-Returns step bound total ds db' (omega arith) in
    (db'', rw e e', omega arith)

for_each-nil : (step : ℕ → Db → Option Db) (db : Db) → for_each step [] db ≡ some db
unfolding for_each
for_each-nil step db = refl

-- One level: where there are dependents, their rows are gone before the steps are made.
level-Returns :
    (step : ℕ → Db → Option Db) (fuel : ℕ)
    → Returns step fuel
    → (ds : List ℕ) (db : Db) (rows : ℕ) → length db.dependencies + length ds ≡ rows
    → rows < suc fuel
    → (out : Db) × (for_each step ds db ≡ some out) × (length out.dependencies ≤ rows)
level-Returns step fuel total [] db rows e h = (db, for_each-nil step db, omega arith)
level-Returns step fuel total (d ∷ ds) db rows e h =
    let (out, done, le) = for_each-Returns step fuel total (d ∷ ds) db (omega arith) in
    (out, done, omega arith)

mark-Returns :
    (status : ActionStatus) (timestamp fuel : ℕ) (reason : Option String)
    → Returns (mark status timestamp fuel reason) fuel
unfolding mark
mark-Returns status timestamp zero reason a db h = absurd (omega arith)
mark-Returns status timestamp (suc fuel) reason a db h =
    level-Returns (mark status timestamp fuel none) fuel (mark-Returns status timestamp fuel none)
      (dependents a db.dependencies) (finish_one status timestamp reason a db)
      (length db.dependencies) (length-drop_depended a db.dependencies) h

-- The recursion of `_mark_failed` and of `_mark_cancelled` ends on every database, whatever cycles
-- its dependencies have, and leaves no more dependency rows than it found.
pub mark-ends :
    (status : ActionStatus) (timestamp : ℕ) (reason : Option String) (a : ℕ) (db : Db)
    → (db' : Db) × (mark status timestamp (enough db) reason a db ≡ some db')
      × (length db'.dependencies ≤ length db.dependencies)
mark-ends status timestamp reason a db =
    mark-Returns status timestamp (enough db) reason a db (omega arith)
