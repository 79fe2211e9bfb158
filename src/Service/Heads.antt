-- ===== src/Service/Heads.antt =====
-- The head of a request, for a cluster that is there, and the size checks in plain bounds.
use senlin.Prelude.{ℕ, ◌≡◌, refl, ◌↔◌, true, Option, none, some, arith}
use senlin.Prelude.Int.{ℤ, ◌≤ℤ◌}
use senlin.Scaling.Checks.{Below, check_size_params_iff}
use senlin.Service.Find.{found}
use senlin.Service.{ClusterRow, Store, Caller, Reply, with_cluster, find_cluster}
use senlin.Service.Membership.{check_target}

pub with_cluster-found :
    (caller : Caller) (store : Store) (identity : ℕ) {c : ClusterRow}
    (request : ClusterRow → Option Reply)
    → find_cluster caller store identity ≡ found c
    → with_cluster caller store identity request ≡ request c
unfolding with_cluster
with_cluster-found caller store identity request e = rw (with_cluster, e) refl

pub some-eq {ℓ} : {A : Type ℓ} {a b : A} → some a ≡ some b → a ≡ b
some-eq e = cc

-- A size that a strict request may lead to.
abbrev pub Allowed : Caller → ClusterRow → ℤ → Type 0
Allowed caller c d = (d ≤ℤ caller.max_nodes) × (c.sizes.min_size ≤ℤ d) × Below d c.sizes.max_size

pub check_target_iff :
    (caller : Caller) (c : ClusterRow) (d : ℤ)
    → (check_target caller c d ≡ none) ↔ Allowed caller c d
unfolding check_target
check_target_iff caller c d =
    let (to, from) = check_size_params_iff caller.max_nodes c.sizes (some d) none none true in
    (λ e. (let k = to e in (ground arith)), λ (k : Allowed caller c d). from (ground arith))
