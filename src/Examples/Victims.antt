-- ===== src/Examples/Victims.antt =====
-- Selections from four nodes.
use senlin.Prelude.{ℕ, ◌≡◌, inr, Option, none, some, List, [], ◌∷◌, length, arith, All}
use mathlib.Core.List.{Perm}
use senlin.Prelude.Int.{pos}
use senlin.Node.{Node, NodeStatus, active, error, creating}
use senlin.Scaling.Victims.Chosen.{ids}
use senlin.Scaling.Victims.Random.{InRange}
use senlin.Scaling.Adjust.{Sizes}
use senlin.Policies.Deletion.{oldest_first, cluster_scale_in, victims, pre_op}
use senlin.Policies.Deletion.Counts.{min_ℕ, pre_op_scale_in_lem}
use senlin.Policies.Batch.{create_plan}
use senlin.Policies.Batch.Plan.{joined, IsUsable, IsBatch, create_plan_lem}

abbrev node : ℕ → NodeStatus → Option ℕ → ℕ → Node
node id status created_at profile_created_at = record {
  id = id;
  status = status;
  created_at = created_at;
  profile_created_at = profile_created_at;
  region_name = none;
  zone = none;
}

abbrev nodes : List Node
nodes =
    node 1 active (some 30) 5
    ∷ node 2 error (some 20) 4
    ∷ node 3 active (some 10) 9
    ∷ node 4 creating none 2
    ∷ []

abbrev the_first : ℕ → ℕ → ℕ
the_first i n = 0

the_first-InRange : InRange the_first
the_first-InRange i n h = h

two-IsUsable : IsUsable (pos 2)
two-IsUsable = inr (omega arith)

create_plan_lem_example :
    (plan : List (List ℕ)) × (create_plan (pos 1) (pos 2) nodes ≡ some plan)
    × Perm (joined plan) (ids nodes)
    × All (IsBatch (pos 1) (pos 2) 4) plan
create_plan_lem_example = create_plan_lem (pos 1) (pos 2) nodes two-IsUsable

abbrev cluster : Sizes
cluster = record { min_size = pos 0; max_size = pos 9; desired_capacity = pos 4 }

pre_op_scale_in_lem_example :
    (ids : List ℕ) × (pre_op
        (pos 1000)
        (λ key. the_first)
        oldest_first
        nodes
        cluster
        []
        none
        (cluster_scale_in (some (pos 3)))
      ≡ some (victims ids))
    × (length ids ≡ min_ℕ 3 4)
pre_op_scale_in_lem_example =
    pre_op_scale_in_lem (pos 1000) (λ key. the_first) oldest_first nodes cluster 3 the_first-InRange
