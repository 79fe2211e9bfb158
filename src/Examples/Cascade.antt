-- ===== src/Examples/Cascade.antt =====
-- Runs of the cascade on the small database.
use senlin.Prelude.{ℕ, ◌≤◌, ◌≡◌, refl, ◌↔◌, inl, inr, none, some, arith}
use senlin.Table.{lookup}
use senlin.Db.{Db, failed, cancelled}
use senlin.Db.Cascade.{mark, enough}
use senlin.Db.Cascade.Progress.{Edge, IsClosed}
use senlin.Db.Cascade.Reach.{Reach, here, next, mark-reached, mark-unreached}
use senlin.Examples.{db}

abbrev waits : Reach db.dependencies 1 3
waits = next (next here (inl (refl, refl))) (inr (inl (refl, refl)))

mark-reached_example :
    (db' : Db) × (mark failed 99 (enough db) (some "no quota") 1 db ≡ some db')
    × IsClosed failed db' 3
mark-reached_example = mark-reached failed 99 (some "no quota") 1 3 db waits

-- What action 1 reaches are the actions 1, 2 and 3.
reached : {x : ℕ} → Reach db.dependencies 1 x → x ≤ 3
reached here = omega arith
reached (next {x = x} {y = y} r (inl (e, f))) = omega arith
reached (next {x = x} {y = y} r (inr (inl (e, f)))) = omega arith
reached (next {x = x} {y = y} r (inr (inr (inl (e, f))))) = omega arith
reached (next {x = x} {y = y} r (inr (inr (inr (inl (e, f)))))) = absurd (omega (arith, reached r))
reached (next {x = x} {y = y} r (inr (inr (inr (inr none_left))))) = absurd none_left

not_reached : ¬ Reach db.dependencies 1 4
not_reached r = absurd (omega (arith, reached r))

mark-unreached_example :
    (db' : Db) × (mark cancelled 99 (enough db) none 1 db ≡ some db')
    × (lookup 4 db'.actions ≡ lookup 4 db.actions)
    × ((q : ℕ) → Edge db'.dependencies 4 q ↔ Edge db.dependencies 4 q)
mark-unreached_example = mark-unreached cancelled 99 none 1 4 db not_reached
