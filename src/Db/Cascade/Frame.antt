-- ===== src/Db/Cascade/Frame.antt =====
-- The cascade writes actions and dependencies, and no locks.
use Prim.Native.String.{String}
use senlin.Prelude.{ℕ, zero, suc, ◌≡◌, ◌∙◌, Option, none, some, List, [], ◌∷◌, >>=-eq-some}
use senlin.Db.{ActionStatus, Db}
use senlin.Db.Dependencies.{dependents}
use senlin.Db.Cascade.{finish_one, for_each, mark}

abbrev SameLocks : Db → Db → Type 0
SameLocks a b = (b.node_locks ≡ a.node_locks) × (b.cluster_locks ≡ a.cluster_locks)

for_each-SameLocks :
    (step : ℕ → Db → Option Db)
    → ((d : ℕ) (db db' : Db) → step d db ≡ some db' → SameLocks db db')
    → (ds : List ℕ) (db db' : Db) → for_each step ds db ≡ some db'
    → SameLocks db db'
unfolding for_each
for_each-SameLocks step same [] db db' e = let k : db ≡ db' = cc in (cc, cc)
for_each-SameLocks step same (d ∷ ds) db db' e =
    let (mid, first, rest) = >>=-eq-some (step d db) (for_each step ds) e in
    let (n, c) = same d db mid first in
    let (n', c') = for_each-SameLocks step same ds mid db' rest in (n' ∙ n, c' ∙ c)

pub mark-SameLocks :
    (status : ActionStatus) (timestamp fuel : ℕ) (reason : Option String) (a : ℕ) (db db' : Db)
    → mark status timestamp fuel reason a db ≡ some db'
    → SameLocks db db'
unfolding mark finish_one
mark-SameLocks status timestamp zero reason a db db' e = cc
mark-SameLocks status timestamp (suc fuel) reason a db db' e =
    for_each-SameLocks (mark status timestamp fuel none)
      (λ d b b'. mark-SameLocks status timestamp fuel none d b b') (dependents a db.dependencies)
      (finish_one status timestamp reason a db) db' e
