-- ===== src/Service/Removal.antt =====
-- `cluster_del_nodes` of senlin/engine/service.py.
pub mod Deleting
use senlin.Prelude.{
  ℕ, Bool, true, false, Option, none, some, List, [], ◌∷◌, length, ◌==◌, if◌then◌else◌,
}
use senlin.Prelude.Int.{ℤ, pos, ◌-ℤ◌}
use senlin.Db.{cluster_del_nodes}
use senlin.Service.Find.{Found, found, not_found, multiple_choices}
use senlin.Service.{
  ClusterRow, NodeRow, Store, Caller, Complaint, not_found_nodes, not_members, nodes_in_use,
  to_remove, Reply, rejected, queued, with_cluster, find_node,
}
use senlin.Service.Membership.{complain, queue_or, raise_or, check_target}

-- The lists of `cluster_del_nodes`.
pub record OldNodes : Type 0 where
  pub removable : List ℕ
  pub unknown : List ℕ
  pub strangers : List ℕ
  pub depended : List ℕ

-- `db_node.cluster_id != db_cluster.id`
unfoldable pub is_stranger : ℕ → NodeRow → Bool
is_stranger cluster_id n = elim n.cluster_id [
  | none ↦ true
  | some c ↦ if c == cluster_id then false else true
]

-- `dep_nodes is not None`
unfoldable pub is_depended : NodeRow → Bool
is_depended n = elim n.node_dependents [ none ↦ false | some _ ↦ true ]

-- One round of the loop, before the rounds that follow.
unfoldable pub file_old : ℕ → ℕ → Found NodeRow → OldNodes → OldNodes
unfolding is_stranger is_depended
file_old cluster_id identity (found n) rest =
    if is_stranger cluster_id n
    then record rest { strangers = n.key.id ∷ rest.strangers }
    else if is_depended n
    then record rest { depended = n.key.id ∷ rest.depended }
    else record rest { removable = n.key.id ∷ rest.removable }
file_old cluster_id identity not_found rest = record rest { unknown = identity ∷ rest.unknown }
file_old cluster_id identity multiple_choices rest = record rest {
  unknown = identity ∷ rest.unknown;
}

-- The loop over `req.nodes`.
unfoldable pub sort_old : Caller → Store → ℕ → List ℕ → OldNodes
unfolding file_old
sort_old caller store cluster_id [] = record {
  removable = [];
  unknown = [];
  strangers = [];
  depended = [];
}
sort_old caller store cluster_id (i ∷ is) =
    file_old cluster_id i (find_node caller store i) (sort_old caller store cluster_id is)

unfoldable pub complaints_on_old : OldNodes → List Complaint
unfolding complain
complaints_on_old s = complain not_found_nodes s.unknown (complain not_members s.strangers [])

-- The checks after the loop; `destroy` is `destroy_after_deletion`, where the request has it.
unfoldable pub delete_sorted : Caller → ClusterRow → Option Bool → OldNodes → Reply
unfolding complaints_on_old queue_or raise_or check_target
delete_sorted caller c destroy s =
    let go = raise_or (complaints_on_old s) (
      queue_or (check_target caller c (c.sizes.desired_capacity -ℤ pos (length s.removable)))
        (queued cluster_del_nodes c.key.id (to_remove s.removable (length s.removable) destroy))) in
    elim s.depended [ [] ↦ go | i ∷ is ↦ rejected (nodes_in_use (i ∷ is)) ]

unfoldable pub del_nodes_request : Caller → Store → ℕ → List ℕ → Option Bool → Option Reply
unfolding with_cluster sort_old delete_sorted
del_nodes_request caller store identity requested destroy =
    with_cluster caller store identity (λ (c : ClusterRow).
      some (delete_sorted caller c destroy (sort_old caller store c.key.id requested)))
