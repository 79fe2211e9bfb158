-- ===== src/Engine/Handlers/Members/Joining.antt =====
-- What `do_add_nodes` does, on each of its branches.
use senlin.Prelude.{
  ℕ, ◌≡◌, ◌≢◌, refl, sym, subst, ◌∙◌, ◌⊎◌, inl, inr, Bool-cases, true, false, ◌++◌, Option, none,
  some, List, [], ◌∷◌, map, length, Option-cases, arith,
}
use senlin.Prelude.Int.{ℤ, pos, ◌+ℤ◌}
use senlin.Db.{node_join}
use senlin.Node.{Node, active}
use senlin.Table.{lookup}
use senlin.Scaling.Adjust.{SizeError}
use senlin.Engine.Results.{ActionResult}
use senlin.Engine.Handlers.{World, Setting, start_children, evaluated}
use senlin.Engine.Handlers.Resizing.{check_new_size}
use senlin.Engine.Handlers.ScaleIn.{Returns}
use senlin.Engine.Handlers.NewSize.{FitsIn, Misfit, check_new_size-FitsIn, check_new_size-Misfit}
use senlin.Engine.Cluster.{eval_status}
use senlin.Engine.Handlers.Members.{
  KnownNode, NodeError, gone, taken_by, inactive, Ending, ended, evaluate_with, refused_nodes,
  refused_size, is_up, join_error, cons_if, join_errors, known, after_joining, join_nodes,
  do_add_nodes,
}

-- Each id is that of an active node of no cluster; these nodes.
pub data AllJoinable (table : List (ℕ × KnownNode)) : List ℕ → List Node → Type 0 where
  none_left : AllJoinable table [] []
  one_more :
      {i : ℕ} (k : KnownNode) {is : List ℕ} {nodes : List Node}
      → lookup i table ≡ some k
      → k.cluster_id ≡ none
      → k.node.status ≡ active
      → AllJoinable table is nodes
      → AllJoinable table (i ∷ is) (k.node ∷ nodes)

-- The errors of these ids: one for each that is of no known node, of a node of a cluster, or of a node
-- that is not active, in their order.
pub data JoinErrors (table : List (ℕ × KnownNode)) : List ℕ → List NodeError → Type 0 where
  no_ids : JoinErrors table [] []
  unknown :
      {i : ℕ} {is : List ℕ} {es : List NodeError}
      → lookup i table ≡ none
      → JoinErrors table is es
      → JoinErrors table (i ∷ is) (gone i ∷ es)
  claimed :
      {i : ℕ} (k : KnownNode) (c : ℕ) {is : List ℕ} {es : List NodeError}
      → lookup i table ≡ some k
      → k.cluster_id ≡ some c
      → JoinErrors table is es
      → JoinErrors table (i ∷ is) (taken_by i c ∷ es)
  idle :
      {i : ℕ} (k : KnownNode) {is : List ℕ} {es : List NodeError}
      → lookup i table ≡ some k
      → k.cluster_id ≡ none
      → k.node.status ≢ active
      → JoinErrors table is es
      → JoinErrors table (i ∷ is) (inactive i ∷ es)
  joinable :
      {i : ℕ} (k : KnownNode) {is : List ℕ} {es : List NodeError}
      → lookup i table ≡ some k
      → k.cluster_id ≡ none
      → k.node.status ≡ active
      → JoinErrors table is es
      → JoinErrors table (i ∷ is) es

pub List-cases {ℓ} : {A : Type ℓ} (l : List A) → (l ≡ []) ⊎ ((x : A) × (xs : List A) × (l ≡ x ∷ xs))
List-cases [] = inl refl
List-cases (x ∷ xs) = inr (x, xs, refl)

is_up-active : (k : KnownNode) → is_up k ≡ true → k.node.status ≡ active
unfolding is_up
is_up-active k e = ground (arith, e)

is_up-inactive : (k : KnownNode) → is_up k ≡ false → k.node.status ≢ active
unfolding is_up
is_up-inactive k e h = absurd (ground (arith, e, h))

cons_if-nil : (o : Option NodeError) (l : List NodeError) → cons_if o l ≡ [] → (o ≡ none) × (l ≡ [])
cons_if-nil none l e = (refl, e)
cons_if-nil (some x) l e = absurd (cc)

join_error-none :
    (i : ℕ) (o : Option KnownNode)
    → join_error i o ≡ none
    → (k : KnownNode) × (o ≡ some k) × (k.cluster_id ≡ none) × (k.node.status ≡ active)
unfolding join_error is_up
join_error-none i none e = absurd (cc)
join_error-none i (some k) e = (k, refl, ground (arith, e), ground (arith, e))

module _ (table : List (ℕ × KnownNode)) where
  known-AllJoinable :
      (ids : List ℕ) → join_errors table ids ≡ [] → AllJoinable table ids (known table ids)
  unfolding join_errors known
  known-AllJoinable [] e = none_left
  known-AllJoinable (i ∷ is) e =
      let (a, b) = cons_if-nil (join_error i (lookup i table)) (join_errors table is) e in
      let (k, there, free, up) = join_error-none i (lookup i table) a in
      rw (known, there) (one_more k there free up (known-AllJoinable is b))

  join_errors-JoinErrors : (ids : List ℕ) → JoinErrors table ids (join_errors table ids)
  unfolding join_errors join_error
  join_errors-JoinErrors [] = no_ids
  join_errors-JoinErrors (i ∷ is) = by_row (join_errors-JoinErrors is) (lookup i table) refl
    where
      by_free :
          JoinErrors table is (join_errors table is)
          → (k : KnownNode) → lookup i table ≡ some k
          → k.cluster_id ≡ none
          → JoinErrors table (i ∷ is) (join_errors table (i ∷ is))
      by_free rest k there free = elim (Bool-cases (is_up k)) [
        | inl up ↦
            rw (join_errors, there, free, up) (joinable k there free (is_up-active k up) rest)
        | inr down ↦
            rw (join_errors, there, free, down) (idle k there free (is_up-inactive k down) rest)
      ]

      by_cluster :
          JoinErrors table is (join_errors table is)
          → (k : KnownNode) → lookup i table ≡ some k
          → (o : Option ℕ) → k.cluster_id ≡ o
          → JoinErrors table (i ∷ is) (join_errors table (i ∷ is))
      by_cluster rest k there (some c) taken =
          rw (join_errors, there, taken) (claimed k c there taken rest)
      by_cluster rest k there none free = by_free rest k there free

      by_row :
          JoinErrors table is (join_errors table is)
          → (o : Option KnownNode) → lookup i table ≡ o
          → JoinErrors table (i ∷ is) (join_errors table (i ∷ is))
      by_row rest none missing = rw (join_errors, missing) (unknown missing rest)
      by_row rest (some k) there = by_cluster rest k there k.cluster_id refl

module _ (setting : Setting) (table : List (ℕ × KnownNode)) (ids : List ℕ) (w : World) where
  -- The size that the addition leads to.
  abbrev pub new_size : ℤ
  new_size = pos (length w.rows) +ℤ pos (length ids)

  -- The joins are started, and the wait for them goes well or not. If it does the row asks for the new
  -- size, the object holds the nodes of the database and then the new ones, and the status is the one
  -- that the nodes and the new size lead to; else nothing is done any more.
  abbrev pub Joins : List Node → Option Ending → Type 0
  Joins nodes outcome =
      (r : ActionResult × World) × (setting.wait
          (record w { started = w.started ++ map (λ i. (node_join, i)) (map (λ n. n.id) nodes) })
        ≡ some r)
      × (((r.0 ≡ ActionResult.res_ok)
            × (outcome
                ≡ some (
                    ended ActionResult.res_ok (record r.1 {
                      saved = record r.1.saved { desired_capacity = new_size };
                      loaded = r.1.rows ++ nodes;
                      status = evaluated (eval_status r.1.rows r.1.own (some new_size) none none);
                    }))))
          ⊎ ((r.0 ≢ ActionResult.res_ok) × (outcome ≡ some (ended r.0 r.1))))

  after_joining-Joins :
      (nodes : List Node) (r : ActionResult × World)
      → setting.wait
          (record w { started = w.started ++ map (λ i. (node_join, i)) (map (λ n. n.id) nodes) })
        ≡ some r
      → Joins nodes (some (after_joining new_size nodes r))
  unfolding after_joining evaluate_with
  after_joining-Joins nodes (ActionResult.res_ok, v) k =
      ((ActionResult.res_ok, v), k, inl (refl, refl))
  after_joining-Joins nodes (ActionResult.res_error, v) k =
      ((ActionResult.res_error, v), k, inr (λ e. cc, refl))
  after_joining-Joins nodes (ActionResult.res_retry, v) k =
      ((ActionResult.res_retry, v), k, inr (λ e. cc, refl))
  after_joining-Joins nodes (ActionResult.res_cancel, v) k =
      ((ActionResult.res_cancel, v), k, inr (λ e. cc, refl))
  after_joining-Joins nodes (ActionResult.res_timeout, v) k =
      ((ActionResult.res_timeout, v), k, inr (λ e. cc, refl))

  join_nodes-refused :
      (message : SizeError)
      → check_new_size setting new_size w ≡ some message
      → join_nodes setting table ids w ≡ some (refused_size message)
  unfolding join_nodes
  join_nodes-refused message e = rw (join_nodes, e) refl

  pub join_nodes-Joins :
      Returns setting
      → check_new_size setting new_size w ≡ none
      → Joins (known table ids) (join_nodes setting table ids w)
  unfolding join_nodes
  join_nodes-Joins returns e =
      let (result, w', k) =
        returns (start_children node_join (map (λ n. n.id) (known table ids)) w) in
      let joined : join_nodes setting table ids w
          ≡ some (after_joining new_size (known table ids) (result, w')) =
        rw (join_nodes, e, k) refl in
      subst (Joins (known table ids)) (sym joined)
        (after_joining-Joins (known table ids) (result, w') k)

  do_add_nodes-refused :
      (e : NodeError) (es : List NodeError)
      → join_errors table ids ≡ e ∷ es
      → do_add_nodes setting table ids w ≡ some (refused_nodes (e ∷ es))
  unfolding do_add_nodes
  do_add_nodes-refused e es h = rw (do_add_nodes, h) refl

  pub do_add_nodes-fine :
      join_errors table ids ≡ [] → do_add_nodes setting table ids w ≡ join_nodes setting table ids w
  unfolding do_add_nodes
  do_add_nodes-fine h = rw (do_add_nodes, h) refl

-- An addition of nodes is refused with an error for each id that is of no known node, of a node of a
-- cluster or of one that is not active, where there is such an id; else with the message of the
-- first bound that the new size breaks, where it is not within the configured and the cluster's own
-- bounds; else the joins of the nodes are started. Where the wait for them goes well, the row asks
-- for the new size, the object holds the nodes of the database followed by the new ones, and the
-- status is the one that the nodes of the database lead to; else the handler ends with what the wait
-- ends with.
pub do_add_nodes_lem :
    (setting : Setting) (table : List (ℕ × KnownNode)) (ids : List ℕ) (w : World)
    → Returns setting
    → ((e : NodeError) × (es : List NodeError) × JoinErrors table ids (e ∷ es)
        × (do_add_nodes setting table ids w ≡ some (refused_nodes (e ∷ es))))
      ⊎ ((nodes : List Node) × AllJoinable table ids nodes
          × (((message : SizeError) × Misfit setting.max_nodes w.own
                  (new_size setting table ids w)
                  message
                × (do_add_nodes setting table ids w ≡ some (refused_size message)))
              ⊎ (FitsIn setting.max_nodes w.own (new_size setting table ids w)
                  × Joins setting table ids w nodes (do_add_nodes setting table ids w))))
do_add_nodes_lem setting table ids w returns = elim (List-cases (join_errors table ids)) [
  | inr (e, es, h) ↦ inl (
    e,
    es,
    subst (JoinErrors table ids) h (join_errors-JoinErrors table ids),
    do_add_nodes-refused setting table ids w e es h,
  )
  | inl h ↦ inr (
    known table ids,
    known-AllJoinable table ids h,
    sized (do_add_nodes-fine setting table ids w h),
  )
]
  where
    size : ℤ
    size = new_size setting table ids w

    sized :
        do_add_nodes setting table ids w ≡ join_nodes setting table ids w
        → ((message : SizeError) × Misfit setting.max_nodes w.own size message
            × (do_add_nodes setting table ids w ≡ some (refused_size message)))
          ⊎ (FitsIn setting.max_nodes w.own size
              × Joins setting table ids w (known table ids) (do_add_nodes setting table ids w))
    sized start = elim (Option-cases (check_new_size setting size w)) [
      | inl fine ↦ inr (
        check_new_size-FitsIn setting w size fine,
        subst (Joins setting table ids w (known table ids)) (sym start)
            (join_nodes-Joins setting table ids w returns fine),
      )
      | inr (message, bad) ↦ inl (
        message,
        check_new_size-Misfit setting w size message bad,
        start ∙ join_nodes-refused setting table ids w message bad,
      )
    ]
