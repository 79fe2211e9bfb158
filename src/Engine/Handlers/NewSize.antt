-- ===== src/Engine/Handlers/NewSize.antt =====
-- `check_size_params` as the handlers of senlin/engine/actions/cluster_action.py call it.
use senlin.Prelude.{◌≡◌, ◌⊎◌, true, none, some, arith}
use senlin.Prelude.Int.{ℤ, pos, ◌≤ℤ◌, ◌<ℤ◌}
use senlin.Scaling.Adjust.{
  Sizes, SizeError, check_size_params, check_desired, desired_gt_max_nodes, desired_lt_cluster_min,
  desired_gt_cluster_max,
}
use senlin.Scaling.Checks.{Below, check_size_params_iff}
use senlin.Engine.Cluster.{eval_status}
use senlin.Engine.Handlers.{World, Setting, resizing, evaluated}
use senlin.Engine.Handlers.Resizing.{check_new_size}

-- A size within the configured number of nodes and the cluster's own bounds.
abbrev pub FitsIn : ℤ → Sizes → ℤ → Type 0
FitsIn max_nodes sizes d = (d ≤ℤ max_nodes) × (sizes.min_size ≤ℤ d) × Below d sizes.max_size

-- The first of these bounds that the size breaks, with its message.
abbrev pub Misfit : ℤ → Sizes → ℤ → SizeError → Type 0
Misfit max_nodes sizes d m =
    ((max_nodes <ℤ d) × (m ≡ desired_gt_max_nodes))
    ⊎ ((d ≤ℤ max_nodes) × (d <ℤ sizes.min_size) × (m ≡ desired_lt_cluster_min))
    ⊎ ((d ≤ℤ max_nodes)
        × (sizes.min_size ≤ℤ d)
        × (pos 0 ≤ℤ sizes.max_size)
        × (sizes.max_size <ℤ d)
        × (m ≡ desired_gt_cluster_max))

-- The object and the row of the cluster ask for that size, and are in a resize.
abbrev pub asking_for : ℤ → World → World
asking_for d w = record w {
  own = record w.own { desired_capacity = d };
  saved = record w.saved { desired_capacity = d };
  status = resizing;
}

-- The nodes are those of the database, and the status is the one that they lead to.
abbrev pub re_evaluated : World → World
re_evaluated w = record w {
  loaded = w.rows;
  status = evaluated (eval_status w.rows w.own none none none);
}

module _ (setting : Setting) (w : World) (d : ℤ) where
  pub check_new_size-FitsIn : check_new_size setting d w ≡ none → FitsIn setting.max_nodes w.own d
  unfolding check_new_size
  check_new_size-FitsIn e =
      ground (arith, (check_size_params_iff setting.max_nodes w.own (some d) none none true).0 e)

  pub check_new_size-Misfit :
      (m : SizeError) → check_new_size setting d w ≡ some m → Misfit setting.max_nodes w.own d m
  unfolding check_new_size check_size_params check_desired
  check_new_size-Misfit m e = ground (arith, e)
