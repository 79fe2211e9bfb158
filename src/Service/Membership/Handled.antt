-- ===== src/Service/Membership/Handled.antt =====
-- What becomes of an addition of nodes that the service accepts.
use mathlib.Core.List.{Memᴰ}
use senlin.Prelude.{ℕ, ◌≡◌, refl, sym, subst, ap, ◌∙◌, none, some, true, List, [], length}
use senlin.Prelude.Int.{pos, ◌+ℤ◌}
use senlin.Db.{cluster_add_nodes}
use senlin.Node.{active}
use senlin.Table.{lookup}
use senlin.Scaling.Adjust.{check_size_params}
use senlin.Engine.Handlers.{World, Setting}
use senlin.Engine.Handlers.Resizing.{check_new_size}
use senlin.Engine.Handlers.ScaleIn.{Returns}
use senlin.Engine.Handlers.Members.{KnownNode, is_up, join_error, join_errors, known, do_add_nodes}
use senlin.Engine.Handlers.Members.Joining.{new_size, Joins, join_nodes-Joins, do_add_nodes-fine}
use senlin.Service.Find.{found}
use senlin.Service.Find.Named.{find-IsFound}
use senlin.Service.{
  ClusterRow, NodeRow, Store, Caller, nodes, queued, find_cluster, profile_type_of,
}
use senlin.Service.Heads.{Allowed, check_target_iff}
use senlin.Service.Membership.{check_target, add_nodes_request}
use senlin.Service.Membership.Adding.{AllFit, none_left, one_more, enlarged, add_nodes_request_iff}

-- The handler finds each node of the tables with the status and the cluster that it had for the
-- service.
abbrev pub StillThere : Store → List (ℕ × KnownNode) → Type 0
StillThere store table =
    (n : NodeRow)
    → Memᴰ n store.nodes
    → (k : KnownNode) × (lookup n.key.id table ≡ some k)
      × (k.cluster_id ≡ n.cluster_id)
      × (k.node.status ≡ n.status)

-- The cluster is as it was for the service, and has the number of nodes that it wants.
pub record IsAsSeen (caller : Caller) (c : ClusterRow) (setting : Setting) (w : World)
    : Type 0 where
  pub same_limit : setting.max_nodes ≡ caller.max_nodes
  pub same_sizes : w.own ≡ c.sizes
  pub as_desired : c.sizes.desired_capacity ≡ pos (length w.rows)

joinable-none :
    (i : ℕ) (k : KnownNode)
    → k.cluster_id ≡ none
    → k.node.status ≡ active
    → join_error i (some k) ≡ none
unfolding join_error is_up
joinable-none i k free up = rw (free, up) refl

AllFit-join_errors :
    (caller : Caller) (store : Store) (t : ℕ) (table : List (ℕ × KnownNode)) {is ids : List ℕ}
    → StillThere store table
    → AllFit caller store t is ids
    → join_errors table ids ≡ []
unfolding join_errors
AllFit-join_errors caller store t table there none_left = refl
AllFit-join_errors caller store t table there (one_more {i} n at fits rest) =
    let (member, _, _) =
      find-IsFound (λ (x : NodeRow). x.key) caller.texts caller.project i store.nodes at in
    let (k, e, same_cluster, same_status) = there n member in
    rw (e, joinable-none n.key.id k (same_cluster ∙ fits.unclaimed) (same_status ∙ fits.in_service))
      (AllFit-join_errors caller store t table there rest)

passes_again :
    (caller : Caller) (c : ClusterRow) (setting : Setting) (w : World)
    (table : List (ℕ × KnownNode)) (ids : List ℕ)
    → IsAsSeen caller c setting w
    → Allowed caller c (enlarged caller c ids)
    → check_new_size setting (new_size setting table ids w) w ≡ none
unfolding check_new_size check_target
passes_again caller c setting w table ids seen allowed =
    ap (λ m. check_size_params m (some w.own) (some (new_size setting table ids w)) none none true)
      seen.same_limit
    ∙ ap
        (λ s.
          check_size_params caller.max_nodes (some s) (some (new_size setting table ids w)) none
            none true)
        seen.same_sizes
    ∙ ap
        (λ d.
          check_size_params caller.max_nodes (some c.sizes) (some (d +ℤ pos (length ids))) none none
            true)
        (sym seen.as_desired)
    ∙ (check_target_iff caller c (enlarged caller c ids)).1 allowed

-- An addition of nodes that the service accepts is not refused by the handler, if the nodes have
-- kept their status and their cluster, and the cluster is as it was and has the number of nodes
-- that it wants: the joins are started. Where the wait for them goes well, the row asks for the new
-- size, the object holds the nodes of the database followed by the new ones, and the status is the
-- one that the nodes of the database lead to; else the handler ends with what the wait ends with.
pub add_nodes_request-Joins :
    (caller : Caller) (store : Store) (identity : ℕ) (requested : List ℕ) (c : ClusterRow) (t : ℕ)
    (ids : List ℕ) (setting : Setting) (table : List (ℕ × KnownNode)) (w : World)
    → find_cluster caller store identity ≡ found c
    → profile_type_of caller store c.profile_id ≡ some t
    → add_nodes_request caller store identity requested
      ≡ some (queued cluster_add_nodes c.key.id (nodes ids))
    → StillThere store table
    → IsAsSeen caller c setting w
    → Returns setting
    → Joins setting table ids w (known table ids) (do_add_nodes setting table ids w)
add_nodes_request-Joins caller store identity requested c t ids setting table w there type_known
      accepted still seen returns =
    let (fit, allowed) =
      (add_nodes_request_iff caller store identity requested c t there type_known ids).0 accepted in
    let fine = AllFit-join_errors caller store t table still fit in
    subst (Joins setting table ids w (known table ids))
      (sym (do_add_nodes-fine setting table ids w fine))
      (join_nodes-Joins setting table ids w returns
        (passes_again caller c setting w table ids seen allowed))
