-- ===== src/Examples/Requests.antt =====
-- Requests on a cluster of two nodes with room for five, and a third node that belongs to none.
use senlin.Prelude.{
  ℕ, ◌≡◌, refl, ◌↔◌, ◌⊎◌, inr, false, true, Option, none, some, [], ◌∷◌, All, arith,
}
use senlin.Prelude.Int.{◌+ℤ◌, ◌-ℤ◌, pos, negsuc, ◌≤ℤ◌, ◌<ℤ◌}
use senlin.Db.{
  cluster_add_nodes, cluster_replace_nodes, cluster_resize, cluster_scale_out, cluster_scale_in,
}
use senlin.Node.{active}
use senlin.Scaling.Adjust.{
  change_in_capacity, ResizeInputs, SizeChange, check_size_params, check_desired, check_max,
  calculate_desired, res_ok, parse_resize_params, desired_lt_cluster_min, desired_gt_cluster_max,
}
use senlin.Scaling.Checks.{Below}
use senlin.Scaling.Resize.{IsAllowed, apply_change}
use senlin.Policies.Deletion.Counts.{min_ℕ}
use senlin.Engine.Handlers.Resizing.{bad_size, refused, do_scale_in, do_scale_out}
use senlin.Engine.Handlers.ScaleIn.{left_of, Shrinks}
use senlin.Engine.Handlers.ScaleOut.{joined_by, Grows}
use senlin.Service.{
  cs_active, ClusterRow, NodeRow, Store, Caller, nodes, replacements, sizes, count, queued,
  find_cluster, profile_type_of,
}
use senlin.Service.Find.{found, Key, find, get}
use senlin.Table.{insert}
use senlin.Service.Heads.{Allowed}
use senlin.Service.Membership.{add_nodes_request}
use senlin.Service.Membership.Adding.{AllFit, enlarged, add_nodes_request_iff}
use senlin.Service.Removal.{del_nodes_request}
use senlin.Service.Removal.Deleting.{AllRemovable, accepted, reduced, del_nodes_request_iff}
use senlin.Service.Sizing.{
  ResizeRequest, count_by_cluster, resize_request, scale_out_request, scale_in_request,
}
use senlin.Service.Sizing.Accepted.{IsSettled, resize_request-parsed}
use senlin.Service.Sizing.Scaled.{IsUnchanged, scale_out_request-handled, scale_in_request-handled}
use senlin.Service.Clusters.{CreateRequest, NewCluster, created, value_of, create_request}
use senlin.Service.Clusters.Created.{IsInFields, IsStartable, create_request-IsStartable}
use senlin.Service.Updates.{replace_nodes_request}
use senlin.Service.Updates.Replaced.{IsSound, replace_nodes_request-IsSound}
use senlin.Examples.Handlers.{world, setting, the_first-InRange, setting-Returns}

abbrev pub key : ℕ → Key
key id = record { id = id; name = id; project = 7 }

abbrev pub cluster : ClusterRow
cluster = record {
  key = key 1;
  status = cs_active;
  sizes = record { min_size = pos 1; max_size = pos 5; desired_capacity = pos 2 };
  profile_id = 31;
  profile_dependents = none;
  metadata = 0;
  timeout = 0;
  config = 0;
}

abbrev pub row : ℕ → Option ℕ → NodeRow
row id cluster_id = record {
  key = key id;
  status = active;
  cluster_id = cluster_id;
  profile_id = 31;
  node_dependents = none;
}

abbrev pub store : Store
store = record {
  clusters = cluster ∷ [];
  nodes = row 21 (some 1) ∷ row 22 (some 1) ∷ row 23 none ∷ [];
  profiles = record { key = key 31; profile_type = 41 } ∷ [];
  bindings = [];
  receivers = [];
}

-- Every id looks like a UUID.
abbrev pub caller : Caller
caller = record {
  project = 7;
  max_nodes = pos 100;
  texts = record { is_uuid_like = λ i. true; is_prefix = λ i j. false };
}

pub cluster_there : find_cluster caller store 1 ≡ found cluster
unfolding find
cluster_there = refl

pub type_known : profile_type_of caller store 31 ≡ some 41
unfolding profile_type_of get
type_known = refl

add_nodes_request_iff_example :
    (add_nodes_request caller store 1 (23 ∷ [])
      ≡ some (queued cluster_add_nodes 1 (nodes (23 ∷ []))))
    ↔ (AllFit caller store 41 (23 ∷ []) (23 ∷ [])
        × Allowed caller cluster (enlarged caller cluster (23 ∷ [])))
add_nodes_request_iff_example =
    add_nodes_request_iff caller store 1 (23 ∷ []) cluster 41 cluster_there type_known (23 ∷ [])

del_nodes_request_iff_example :
    (del_nodes_request caller store 1 (22 ∷ []) none
      ≡ some (accepted caller cluster none (22 ∷ [])))
    ↔ (AllRemovable caller store 1 (22 ∷ []) (22 ∷ [])
        × Allowed caller cluster (reduced cluster (22 ∷ [])))
del_nodes_request_iff_example =
    del_nodes_request_iff caller store 1 (22 ∷ []) none cluster (22 ∷ []) cluster_there

replaced :
    replace_nodes_request caller store 1 ((22, 23) ∷ [])
    ≡ some (queued cluster_replace_nodes 1 (replacements ((22, 23) ∷ [])))
unfolding replace_nodes_request find insert
replaced = refl

replace_nodes_request-IsSound_example : All (IsSound caller store 1 41) ((22, 23) ∷ [])
replace_nodes_request-IsSound_example =
    replace_nodes_request-IsSound caller store 1 ((22, 23) ∷ []) cluster 41 ((22, 23) ∷ [])
      cluster_there type_known replaced

abbrev enlarge : ResizeRequest
enlarge = record {
  adjustment_type = some change_in_capacity;
  number = some (some (pos 2));
  min_size = none;
  max_size = none;
  min_step = none;
  strict = none;
}

abbrev enlarge_inputs : ResizeInputs
enlarge_inputs = record {
  adjustment = some (change_in_capacity, pos 2);
  min_size = none;
  max_size = none;
  min_step = none;
  strict = some true;
}

cluster-IsSettled : IsSettled caller cluster (count_by_cluster caller store 1)
unfolding count_by_cluster
cluster-IsSettled = record {
  some_nodes = omega arith;
  as_desired = refl;
  allowed = (omega arith, omega arith, inr (omega arith));
  sized = record { ordered = inr (omega arith); some_room = inr (omega arith) };
}

enlarge_accepted :
    resize_request caller store 1 enlarge ≡ some (queued cluster_resize 1 (sizes enlarge_inputs))
unfolding resize_request find check_size_params check_desired calculate_desired ◌+ℤ◌
enlarge_accepted = refl

resize_request-parsed_example :
    (change : SizeChange) × (parse_resize_params
        (pos 100)
        cluster.sizes
        enlarge_inputs
        (some (pos (count_by_cluster caller store 1)))
      ≡ res_ok change)
    × IsAllowed
        (pos 100)
        cluster.sizes
        enlarge_inputs
        (apply_change (pos (count_by_cluster caller store 1)) change)
resize_request-parsed_example =
    resize_request-parsed caller store 1 enlarge cluster enlarge_inputs cluster_there
      cluster-IsSettled (record { min_fits = tt; some_room = tt }) (λ h. cc) enlarge_accepted

world-IsUnchanged : IsUnchanged caller cluster setting world
world-IsUnchanged = record { same_limit = refl; same_sizes = refl; as_desired = refl }

out_accepted :
    scale_out_request caller store 1 (some (some 2))
    ≡ some (queued cluster_scale_out 1 (count (pos 2)))
unfolding scale_out_request find check_size_params check_desired ◌+ℤ◌
out_accepted = refl

scale_out_request-handled_example :
    ((pos 0 ≤ℤ pos 5)
      × (pos 5 <ℤ joined_by setting world 2)
      × (do_scale_out setting none none (some (pos 2)) world
          ≡ some (refused (bad_size desired_gt_cluster_max))))
    ⊎ (Below (joined_by setting world 2) (pos 5)
        × Grows setting world 2 (do_scale_out setting none none (some (pos 2)) world))
scale_out_request-handled_example =
    scale_out_request-handled caller store 1 cluster 2 setting world none cluster_there out_accepted
      world-IsUnchanged (omega arith, omega arith, inr (omega arith)) setting-Returns tt

in_accepted :
    scale_in_request caller store 1 (some (some 3))
    ≡ some (queued cluster_scale_in 1 (count (pos 3)))
unfolding scale_in_request find check_size_params check_desired ◌-ℤ◌
in_accepted = refl

scale_in_request-handled_example :
    ((left_of setting world (min_ℕ 3 2) <ℤ pos 1)
      × (do_scale_in setting none (some (pos 3)) world
          ≡ some (refused (bad_size desired_lt_cluster_min))))
    ⊎ ((pos 1 ≤ℤ left_of setting world (min_ℕ 3 2))
        × Shrinks setting world (min_ℕ 3 2) (do_scale_in setting none (some (pos 3)) world))
scale_in_request-handled_example =
    scale_in_request-handled caller store 1 cluster 3 setting world cluster_there in_accepted
      world-IsUnchanged (omega arith, omega arith, inr (omega arith)) the_first-InRange
      setting-Returns refl (omega arith)

abbrev small : CreateRequest
small = record {
  name = 9;
  profile = 31;
  desired_capacity = some (some (pos 0));
  min_size = none;
  max_size = some (some (pos 0));
}

abbrev small_row : NewCluster
small_row = record {
  name = 9;
  profile_id = 31;
  desired_capacity = some (pos 0);
  min_size = pos 0;
  max_size = negsuc 0;
}

small_created : create_request caller store 10 true small ≡ created small_row
unfolding create_request find check_size_params check_desired check_max
small_created = refl

small-IsInFields : IsInFields (pos 100) small
unfolding value_of
small-IsInFields = record {
  desired_range = (omega arith, omega arith);
  min_range = tt;
  max_range = omega arith;
}

create_request-IsStartable_example : IsStartable (pos 100) small_row
create_request-IsStartable_example =
    create_request-IsStartable caller store 10 true small small_row small-IsInFields (omega arith)
      small_created
