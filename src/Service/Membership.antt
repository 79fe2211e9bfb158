-- ===== src/Service/Membership.antt =====
-- `cluster_add_nodes`, `cluster_del_nodes`, `cluster_replace_nodes` and `_validate_replace_nodes` of
-- senlin/engine/service.py. `none` is an exception that the code does not expect.
pub mod Adding
pub mod Handled
use senlin.Prelude.{
  ℕ, Bool, true, false, not, ◌&&◌, Option, none, some, List, [], ◌∷◌, ◌++◌, length, ◌==◌,
  if◌then◌else◌, ◌>>=◌,
}
use senlin.Prelude.Int.{ℤ, pos, ◌+ℤ◌, ◌-ℤ◌}
use senlin.Db.{cluster_add_nodes, cluster_del_nodes, cluster_replace_nodes}
use senlin.Node.{NodeStatus, active}
use senlin.Table.{insert}
use senlin.Scaling.Adjust.{SizeError, check_size_params}
use senlin.Service.Find.{Found, found, not_found, multiple_choices}
use senlin.Service.{
  ClusterRow, NodeRow, Store, Caller, Complaint, not_matching, owned, not_active, not_found_nodes,
  not_members, not_found_old, not_found_new, nodes_in_use, bad_nodes, bad_sizes, Inputs, nodes,
  to_remove, replacements, Reply, rejected, queued, with_cluster, find_node, profile_type_of,
}

-- `consts.NS_ACTIVE`
unfoldable pub is_node_active : NodeRow → Bool
is_node_active n = elim n.status [ active ↦ true | _ ↦ false ]

-- `if db_node.cluster_id:`
unfoldable pub is_owned : NodeRow → Bool
is_owned n = elim n.cluster_id [ none ↦ false | some _ ↦ true ]

-- `list.append`, on a list that is built from its end, if the test holds.
abbrev pub add_if : Bool → ℕ → List ℕ → List ℕ
add_if test a l = if test then a ∷ l else l

-- The lists of `cluster_add_nodes`.
pub record NewNodes : Type 0 where
  pub found_ids : List ℕ
  pub missing : List ℕ
  pub inactive : List ℕ
  pub taken_ids : List ℕ
  pub unlike : List ℕ

-- One round of the loop for a node that is there, before the rounds that follow.
unfoldable pub file_new : ℕ → NodeRow → ℕ → NewNodes → NewNodes
unfolding is_node_active is_owned
file_new cluster_type n node_type rest = record {
  found_ids = n.key.id ∷ rest.found_ids;
  missing = rest.missing;
  inactive = add_if (not (is_node_active n)) n.key.id rest.inactive;
  taken_ids = add_if (is_owned n) n.key.id rest.taken_ids;
  unlike = add_if (not (node_type == cluster_type)) n.key.id rest.unlike;
}

unfoldable pub file_missing : ℕ → NewNodes → NewNodes
file_missing identity rest = record rest { missing = identity ∷ rest.missing }

module _ (caller : Caller) (store : Store) where
  unfoldable pub sort_round : ℕ → ℕ → Found NodeRow → NewNodes → Option NewNodes
  unfolding file_new file_missing profile_type_of
  sort_round cluster_type identity (found n) rest = do
    node_type ← profile_type_of caller store n.profile_id
    some (file_new cluster_type n node_type rest)
  sort_round cluster_type identity not_found rest = some (file_missing identity rest)
  sort_round cluster_type identity multiple_choices rest = some (file_missing identity rest)

  -- The loop over `req.nodes`.
  unfoldable pub sort_new : ℕ → List ℕ → Option NewNodes
  unfolding sort_round
  sort_new cluster_type [] =
      some (record { found_ids = []; missing = []; inactive = []; taken_ids = []; unlike = [] })
  sort_new cluster_type (i ∷ is) = do
    rest ← sort_new cluster_type is
    sort_round cluster_type i (find_node caller store i) rest

-- `if len(ids): msg.append(...)`
unfoldable pub complain : (List ℕ → Complaint) → List ℕ → List Complaint → List Complaint
complain line [] rest = rest
complain line (i ∷ is) rest = line (i ∷ is) ∷ rest

unfoldable pub complaints_on : NewNodes → List Complaint
unfolding complain
complaints_on s = complain not_matching s.unlike (
    complain owned s.taken_ids
      (complain not_active s.inactive (complain not_found_nodes s.missing [])))

-- `if error: raise ...`, and the creation of the action.
unfoldable pub queue_or : Option SizeError → Reply → Reply
queue_or none reply = reply
queue_or (some message) reply = rejected (bad_sizes message)

-- `if msg: raise ...`
unfoldable pub raise_or : List Complaint → Reply → Reply
raise_or [] reply = reply
raise_or (m ∷ ms) reply = rejected (bad_nodes (m ∷ ms))

-- `su.check_size_params(db_cluster, target_size, strict=True)`
unfoldable pub check_target : Caller → ClusterRow → ℤ → Option SizeError
check_target caller c target =
    check_size_params caller.max_nodes (some c.sizes) (some target) none none true

unfoldable pub add_sorted : Caller → ClusterRow → NewNodes → Reply
unfolding complaints_on queue_or raise_or check_target
add_sorted caller c s = raise_or (complaints_on s) (
    queue_or (check_target caller c (c.sizes.desired_capacity +ℤ pos (length s.found_ids)))
      (queued cluster_add_nodes c.key.id (nodes s.found_ids)))

unfoldable pub add_nodes_request : Caller → Store → ℕ → List ℕ → Option Reply
unfolding with_cluster profile_type_of sort_new add_sorted
add_nodes_request caller store identity requested =
    with_cluster caller store identity (λ (c : ClusterRow). (do
      cluster_type ← profile_type_of caller store c.profile_id
      s ← sort_new caller store cluster_type requested
      some (add_sorted caller c s)))
