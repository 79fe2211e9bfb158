-- ===== src/Examples/Members.antt =====
-- The addition of a node to a cluster, and the deletion of one of its members.
use senlin.Engine.Handlers.NewSize.{FitsIn, Misfit}
use senlin.Prelude.{ℕ, ◌≡◌, ◌⊎◌, none, some, List, [], ◌∷◌}
use senlin.Prelude.Int.{pos}
use senlin.Node.{Node}
use senlin.Scaling.Adjust.{SizeError}
use senlin.Engine.Handlers.Members.{
  KnownNode, NodeError, refused_nodes, refused_size, do_add_nodes, do_del_nodes,
}
use senlin.Engine.Handlers.Members.Joining.{
  JoinErrors, AllJoinable, new_size, Joins, do_add_nodes_lem,
}
use senlin.Engine.Handlers.Members.Departure.{LeaveErrors}
use senlin.Engine.Handlers.Members.Leaving.{Members, Settles, do_del_nodes_lem}
use mathlib.Core.List.{Memᴰ}
use senlin.Prelude.{refl, sym, ap, subst, Option}
use senlin.Prelude.Int.{pos, ◌+ℤ◌}
use senlin.Db.{ActionName, cluster_add_nodes}
use senlin.Engine.Results.{ActionResult}
use senlin.Engine.Handlers.{World}
use senlin.Engine.Handlers.Lifecycle.Batches.{KeepsStarted, Runs, update_batches-Runs}
use senlin.Table.{lookup}
use senlin.Scaling.Adjust.{check_size_params, check_desired}
use senlin.Engine.Handlers.Members.{known}
use senlin.Service.{NodeRow, nodes, queued}
use senlin.Service.Find.{find}
use senlin.Service.Membership.{add_nodes_request}
use senlin.Service.Membership.Handled.{IsAsSeen, add_nodes_request-Joins}
use senlin.Examples.Requests.{cluster, store, caller, cluster_there, type_known}
use senlin.Examples.Handlers.{node, world, setting, setting-Returns}

abbrev table : List (ℕ × KnownNode)
table =
    (5, record { node = node 5; cluster_id = some 1 })
    ∷ (6, record { node = node 6; cluster_id = some 1 })
    ∷ (7, record { node = node 7; cluster_id = none })
    ∷ []

do_add_nodes_lem_example :
    ((e : NodeError) × (es : List NodeError) × JoinErrors table (7 ∷ []) (e ∷ es)
      × (do_add_nodes setting table (7 ∷ []) world ≡ some (refused_nodes (e ∷ es))))
    ⊎ ((nodes : List Node) × AllJoinable table (7 ∷ []) nodes
        × (((message : SizeError) × Misfit
                (pos 100)
                world.own
                (new_size setting table (7 ∷ []) world)
                message
              × (do_add_nodes setting table (7 ∷ []) world ≡ some (refused_size message)))
            ⊎ (FitsIn (pos 100) world.own (new_size setting table (7 ∷ []) world)
                × Joins setting table
                    (7 ∷ [])
                    world
                    nodes
                    (do_add_nodes setting table (7 ∷ []) world))))
do_add_nodes_lem_example = do_add_nodes_lem setting table (7 ∷ []) world setting-Returns

do_del_nodes_lem_example :
    ((e : NodeError) × (es : List NodeError) × LeaveErrors table (6 ∷ 7 ∷ []) (e ∷ es)
      × (do_del_nodes setting 1 table none none (6 ∷ 7 ∷ []) world ≡ some (refused_nodes (e ∷ es))))
    ⊎ ((ids : List ℕ) × Members 1 table (6 ∷ 7 ∷ []) ids
        × Settles setting none none world ids
            (do_del_nodes setting 1 table none none (6 ∷ 7 ∷ []) world))
do_del_nodes_lem_example =
    do_del_nodes_lem setting 1 table none none (6 ∷ 7 ∷ []) world setting-Returns

-- The nodes 21, 22 and 23 of the service's tables, as the handler finds them.
abbrev served : List (ℕ × KnownNode)
served =
    (21, record { node = node 21; cluster_id = some 1 })
    ∷ (22, record { node = node 22; cluster_id = some 1 })
    ∷ (23, record { node = node 23; cluster_id = none })
    ∷ []

abbrev Kept : NodeRow → Type 0
Kept n =
    (k : KnownNode) × (lookup n.key.id served ≡ some k)
    × (k.cluster_id ≡ n.cluster_id)
    × (k.node.status ≡ n.status)

row-Kept : (n : NodeRow) → Memᴰ n store.nodes → Kept n
unfolding lookup
row-Kept n (Memᴰ.head e) =
    subst Kept (sym e) (record { node = node 21; cluster_id = some 1 }, refl, refl, refl)
row-Kept n (Memᴰ.tail (Memᴰ.head e)) =
    subst Kept (sym e) (record { node = node 22; cluster_id = some 1 }, refl, refl, refl)
row-Kept n (Memᴰ.tail (Memᴰ.tail (Memᴰ.head e))) =
    subst Kept (sym e) (record { node = node 23; cluster_id = none }, refl, refl, refl)
row-Kept n (Memᴰ.tail (Memᴰ.tail (Memᴰ.tail m))) = elim m [ ]

addition_accepted :
    add_nodes_request caller store 1 (23 ∷ []) ≡ some (queued cluster_add_nodes 1 (nodes (23 ∷ [])))
unfolding add_nodes_request find check_size_params check_desired ◌+ℤ◌
addition_accepted = refl

world-IsAsSeen : IsAsSeen caller cluster setting world
world-IsAsSeen = record { same_limit = refl; same_sizes = refl; as_desired = refl }

add_nodes_request-Joins_example :
    Joins setting served
      (23 ∷ [])
      world
      (known served (23 ∷ []))
      (do_add_nodes setting served (23 ∷ []) world)
add_nodes_request-Joins_example =
    add_nodes_request-Joins caller store 1 (23 ∷ []) cluster 41 (23 ∷ []) setting served world
      cluster_there type_known addition_accepted row-Kept world-IsAsSeen setting-Returns

setting-KeepsStarted : KeepsStarted setting
setting-KeepsStarted w result w' e = sym (ap (started_of w) e)
  where
    started_of : World → Option (ActionResult × World) → List (ActionName × ℕ)
    started_of other none = other.started
    started_of other (some r) = r.1.started

update_batches-Runs_example : Runs setting ((5 ∷ []) ∷ (6 ∷ []) ∷ []) world
update_batches-Runs_example =
    update_batches-Runs setting ((5 ∷ []) ∷ (6 ∷ []) ∷ []) world setting-Returns
      setting-KeepsStarted
