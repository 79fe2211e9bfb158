-- ===== src/Examples/Handlers.antt =====
-- A scale-in and a scale-out of a cluster of two nodes, the life of a node, and a policy check.
use senlin.Engine.Handlers.NewSize.{FitsIn, Misfit}
use senlin.Prelude.{ℕ, suc, ◌≡◌, refl, ◌⊎◌, false, true, none, some, List, [], ◌∷◌, arith}
use senlin.Prelude.Int.{pos, negsuc}
use senlin.Node.{Node, active}
use senlin.Scaling.Adjust.{SizeError}
use senlin.Scaling.Victims.Random.{InRange}
use senlin.Policies.Deletion.Counts.{min_ℕ}
use senlin.Engine.Results.{ActionResult}
use senlin.Engine.Handlers.{earlier, World, Setting}
use senlin.Engine.Handlers.Resizing.{bad_size, refused, do_scale_in, do_scale_out}
use senlin.Engine.Handlers.ScaleIn.{Returns, left_of, Shrinks, do_scale_in_lem}
use senlin.Engine.Handlers.ScaleOut.{joined_by, Grows, do_scale_out_lem}
use senlin.Engine.NodeLife.{NodeState, answers, raises, do_join, do_leave}
use senlin.Engine.NodeLife.Settled.{
  Operation, recover, run, RowIsSettled, IsUndone, run-IsSettled, do_join-do_leave,
}
use senlin.Engine.PolicyCheck.{Target, CheckData, Binding, policy_check}
use senlin.Engine.PolicyCheck.FirstRefusal.{Ends, policy_check-Ends}

abbrev pub node : ℕ → Node
node id = record {
  id = id;
  status = active;
  created_at = some id;
  profile_created_at = 1;
  region_name = none;
  zone = none;
}

abbrev pub world : World
world = record {
  own = record { min_size = pos 1; max_size = pos 5; desired_capacity = pos 2 };
  saved = record { min_size = pos 1; max_size = pos 5; desired_capacity = pos 2 };
  status = earlier;
  loaded = node 5 ∷ node 6 ∷ [];
  rows = node 5 ∷ node 6 ∷ [];
  started = [];
}

abbrev pub the_first : ℕ → ℕ → ℕ
the_first i n = 0

pub the_first-InRange : InRange the_first
the_first-InRange i n h = h

abbrev pub setting : Setting
setting = record {
  max_nodes = pos 100;
  draw = the_first;
  new_id = λ m. m;
  profile_created_at = 1;
  wait = λ w. some (ActionResult.res_ok, w);
}

pub setting-Returns : Returns setting
setting-Returns w = (ActionResult.res_ok, w, refl)

do_scale_in_lem_example :
    ((message : SizeError) × Misfit (pos 100) world.own (left_of setting world (min_ℕ 1 2)) message
      × (do_scale_in setting none (some (pos 1)) world ≡ some (refused (bad_size message))))
    ⊎ (FitsIn (pos 100) world.own (left_of setting world (min_ℕ 1 2))
        × Shrinks setting world (min_ℕ 1 2) (do_scale_in setting none (some (pos 1)) world))
do_scale_in_lem_example =
    do_scale_in_lem setting world 1 the_first-InRange setting-Returns refl (omega arith)
      (omega arith)

do_scale_out_lem_example :
    ((message : SizeError) × Misfit (pos 100) world.own (joined_by setting world 2) message
      × (do_scale_out setting none none (some (pos 2)) world ≡ some (refused (bad_size message))))
    ⊎ (FitsIn (pos 100) world.own (joined_by setting world 2)
        × Grows setting world 2 (do_scale_out setting none none (some (pos 2)) world))
do_scale_out_lem_example = do_scale_out_lem setting world none 2 setting-Returns tt (omega arith)

abbrev orphan : NodeState
orphan = record {
  status = active;
  physical_id = some 9;
  created_at = some 3;
  updated_at = none;
  profile_id = 2;
  cluster_id = none;
  index = negsuc 0;
  role = some 3;
  recreated = false;
}

abbrev failed_recovery : Operation
failed_recovery = recover (some raises) (answers none)

run-IsSettled_example : RowIsSettled (run 50 failed_recovery orphan).1 ⊎ IsUndone failed_recovery
run-IsSettled_example = run-IsSettled 50 failed_recovery orphan tt

do_join-do_leave_example :
    do_leave 60 true (do_join 50 10 (pos 1) true orphan).1
    ≡ (true, record orphan { index = negsuc 0; role = none; updated_at = some 60 })
do_join-do_leave_example = do_join-do_leave 50 60 10 (pos 1) orphan refl

-- A policy that raises the count, and one whose cooldown of 60 seconds is in progress.
abbrev bindings : List (Binding ℕ)
bindings =
    record {
      last_op = none;
      cooldown = none;
      needs_check = λ target. true;
      method = λ target. some (λ d. some (record d { content = suc d.content }));
    }
    ∷ record {
      last_op = some 10;
      cooldown = some 60;
      needs_check = λ target. true;
      method = λ target. none;
    }
    ∷ []

abbrev check_data : CheckData ℕ
check_data = record { is_ok = true; content = 3 }

policy_check-Ends_example :
    Ends Target.after 40 bindings check_data (policy_check Target.after 40 bindings check_data)
policy_check-Ends_example = policy_check-Ends Target.after 40 bindings check_data
