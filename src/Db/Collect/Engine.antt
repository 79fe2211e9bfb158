-- ===== src/Db/Collect/Engine.antt =====
-- The clean-up of a dead engine as a whole.
use senlin.Prelude.{
  ℕ, ◌≡◌, subst, true, some, List, [], ◌∷◌, ◌==◌, All, arith, >>=-eq-some, Bool-cases, inl, inr,
}
use senlin.Table.{lookup}
use senlin.Db.{Action, Db, failed}
use senlin.Db.Cascade.{for_each}
use senlin.Db.Cascade.Frame.{mark-SameLocks}
use senlin.Db.Cascade.Progress.{IsClosed, mark-Progress}
use senlin.Db.Collect.{is_owned_by, owned_ids, collect_action, gc_by_engine}
use senlin.Db.Collect.Cleanup.{
  NodeFree, ClusterFree, AllDistinct, drop_node_locks-NodeFree, drop_node_locks-keeps,
  collect_locks-ClusterFree, collect_locks-keeps, for_each-ends,
}

-- The action has failed and has no owner, no action waits for it, and it holds no lock.
pub record IsCollected (db : Db) (a : ℕ) : Type 0 where
  pub closed : IsClosed failed db a
  pub no_node : NodeFree a db.node_locks
  pub no_cluster : ClusterFree a db.cluster_locks

record Collects (before after : Db) : Type 0 where
  distinct : AllDistinct after.cluster_locks
  keeps : (b : ℕ) → IsCollected before b → IsCollected after b

collect_action-Collects :
    (timestamp a : ℕ) (db db' : Db)
    → collect_action timestamp a db ≡ some db'
    → AllDistinct db.cluster_locks
    → Collects db db' × IsCollected db' a
unfolding collect_action
collect_action-Collects timestamp a db db' e d =
    let locks = mark-SameLocks failed timestamp _ (some "Engine failure") a _ db' e in
    let (p, c) = mark-Progress failed timestamp _ (some "Engine failure") a _ db' e in
    let (d', f) = collect_locks-ClusterFree a db.cluster_locks d in
    (
      record {
        distinct = rw locks.1 d';
        keeps = λ b i. record {
          closed = p.keeps b (record { done = i.closed.done; free = i.closed.free });
          no_node = rw locks.0 (drop_node_locks-keeps a b db.node_locks i.no_node);
          no_cluster = rw locks.1 (collect_locks-keeps a b db.cluster_locks d i.no_cluster);
        };
      },
      record {
        closed = c;
        no_node = rw locks.0 (drop_node_locks-NodeFree a db.node_locks);
        no_cluster = rw locks.1 f;
      },
    )

for_each-Collects :
    (timestamp : ℕ) (ds : List ℕ) (db db' : Db)
    → for_each (collect_action timestamp) ds db ≡ some db'
    → AllDistinct db.cluster_locks
    → Collects db db' × All (IsCollected db') ds
unfolding for_each
for_each-Collects timestamp [] db db' e d =
    let same : db ≡ db' = cc in
    (
      record {
        distinct = subst (λ b. AllDistinct b.cluster_locks) same d;
        keeps = λ b i. subst (λ k. IsCollected k b) same i;
      },
      tt,
    )
for_each-Collects timestamp (a ∷ ds) db db' e d =
    let (mid, first, rest) =
      >>=-eq-some (collect_action timestamp a db) (for_each (collect_action timestamp) ds) e in
    let (c, i) = collect_action-Collects timestamp a db mid first d in
    let (c', is) = for_each-Collects timestamp ds mid db' rest c.distinct in
    (record { distinct = c'.distinct; keeps = λ b k. c'.keeps b (c.keeps b k) }, (c'.keeps a i, is))

-- An action that the engine owns is among those collected.
owned-All :
    (P : ℕ → Type 0) (engine a : ℕ) (act : Action) (t : List (ℕ × Action))
    → lookup a t ≡ some act
    → act.owner ≡ some engine
    → All P (owned_ids engine t)
    → P a
unfolding owned_ids lookup
owned-All P engine a act [] e o h = cc
owned-All P engine a act ((b, act') ∷ t) e o h = elim (Bool-cases (b == a)) [
  | inl same ↦
      let found : act' ≡ act = ground (arith, e, same) in
      let owned : is_owned_by engine act'.owner ≡ true =
        rw (found, o) (unfold is_owned_by in ground arith) in
      let k : b ≡ a = ground arith in subst P k (rw owned at h).0
  | inr other ↦
      let e' : lookup a t ≡ some act = ground (arith, e, other) in
      elim (Bool-cases (is_owned_by engine act'.owner)) [
        | inl owned ↦ owned-All P engine a act t e' o (rw owned at h).1
        | inr free ↦ owned-All P engine a act t e' o (rw free at h)
      ]
]

-- The clean-up of a dead engine ends, and each action that the engine owned has then failed and has
-- no owner, is waited for by none, and holds no lock of a node or of a cluster, provided that no
-- cluster lock names an action twice.
pub gc_by_engine-IsCollected :
    (engine timestamp a : ℕ) (db : Db) (act : Action)
    → AllDistinct db.cluster_locks
    → lookup a db.actions ≡ some act
    → act.owner ≡ some engine
    → (db' : Db) × (gc_by_engine engine timestamp db ≡ some db') × IsCollected db' a
unfolding gc_by_engine
gc_by_engine-IsCollected engine timestamp a db act d e o =
    let (db', done) = for_each-ends timestamp (owned_ids engine db.actions) db in
    let (_, all) = for_each-Collects timestamp (owned_ids engine db.actions) db db' done d in
    (db', done, owned-All (IsCollected db') engine a act db.actions e o all)
