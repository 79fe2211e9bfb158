-- ===== src/Service/Sizing/Scaled.antt =====
-- What becomes of a scaling that the service accepts: the handler of the action counts the nodes,
-- and its checks are strict.
use senlin.Prelude.{
  ℕ, ◌<◌, ◌≡◌, sym, ap, ◌∙◌, subst, ◌⊎◌, inl, inr, false, none, some, length, ◌==◌, if◌then◌else◌,
  arith, Bool-cases,
}
use senlin.Prelude.Int.{ℤ, pos, ◌+ℤ◌, ◌-ℤ◌, ◌≤ℤ◌, ◌<ℤ◌, +ℤ_parts, -ℤ_parts}
use senlin.Db.{ActionName, cluster_scale_out, cluster_scale_in}
use senlin.Scaling.Adjust.{Sizes, SizeError, desired_lt_cluster_min, desired_gt_cluster_max}
use senlin.Scaling.Checks.{Below, check_size_params_iff}
use senlin.Scaling.Victims.Random.{InRange}
use senlin.Policies.Deletion.Counts.{min_ℕ}
use senlin.Engine.Handlers.{World, Setting, Placements}
use senlin.Engine.Handlers.NewSize.{Misfit}
use senlin.Engine.Handlers.Resizing.{bad_size, refused, do_scale_in, do_scale_out}
use senlin.Engine.Handlers.ScaleIn.{Returns, left_of, Shrinks, do_scale_in_lem}
use senlin.Engine.Handlers.ScaleOut.{HasPlaces, joined_by, Grows, do_scale_out_lem}
use senlin.Service.Find.{found}
use senlin.Service.{
  ClusterRow, Store, Caller, Inputs, Rejection, count, zero_count, rejected, queued, find_cluster,
}
use senlin.Service.Heads.{with_cluster-found, some-eq, Allowed}
use senlin.Service.Sizing.{queue_scaling, scale_out_request, scale_in_request}
use senlin.Service.Sizing.Accepted.{queue_or-queued}

rejected-queued :
    {r : Rejection} {name : ActionName} {id : ℕ} {i : Inputs} → rejected r ≡ queued name id i → ⊥
rejected-queued e = cc

-- The handler runs with the cluster as the service has seen it, with as many nodes as it wants.
pub record IsUnchanged (caller : Caller) (c : ClusterRow) (setting : Setting) (w : World)
    : Type 0 where
  pub same_limit : setting.max_nodes ≡ caller.max_nodes
  pub same_sizes : w.own ≡ c.sizes
  pub as_desired : c.sizes.desired_capacity ≡ pos (length w.rows)

queue_scaling-count :
    (caller : Caller) (c : ClusterRow) (name : ActionName) (target : ℤ) (k : ℕ) (i : Inputs)
    → (if k == 0 then rejected zero_count else queue_scaling caller c name target k)
      ≡ queued name c.key.id i
    → (0 < k) × (target ≤ℤ caller.max_nodes)
unfolding queue_scaling
queue_scaling-count caller c name target k i e = elim (Bool-cases (k == 0)) [
  | inl p ↦ absurd (rejected-queued (rw p at e))
  | inr p ↦
      let fine = (queue_or-queued _ (rw p at e)).0 in
      let fits = (check_size_params_iff caller.max_nodes c.sizes _ none none false).0 fine in
      (ground (arith, p), fits.desired_fits)
]

module _ (caller : Caller) (store : Store) (identity : ℕ) (c : ClusterRow) (k : ℕ)
    (there : find_cluster caller store identity ≡ found c) where
  out_passes :
      scale_out_request caller store identity (some (some k))
        ≡ some (queued cluster_scale_out c.key.id (count (pos k)))
      → (0 < k) × ((c.sizes.desired_capacity +ℤ pos k) ≤ℤ caller.max_nodes)
  unfolding scale_out_request
  out_passes e =
      queue_scaling-count caller c cluster_scale_out (c.sizes.desired_capacity +ℤ pos k) k
        (count (pos k)) (some-eq (sym (with_cluster-found caller store identity _ there) ∙ e))

  in_passes :
      scale_in_request caller store identity (some (some k))
        ≡ some (queued cluster_scale_in c.key.id (count (pos k)))
      → 0 < k
  unfolding scale_in_request
  in_passes e =
      (queue_scaling-count caller c cluster_scale_in (c.sizes.desired_capacity -ℤ pos k) k
        (count (pos k)) (some-eq (sym (with_cluster-found caller store identity _ there) ∙ e))).0

-- What the bounds were for the service.
seen :
    (caller : Caller) (c : ClusterRow) (setting : Setting) (w : World)
    → IsUnchanged caller c setting w
    → (P : ℤ → Sizes → Type 0) → P setting.max_nodes w.own
    → P caller.max_nodes c.sizes
seen caller c setting w u P h =
    subst (λ s. P caller.max_nodes s) u.same_sizes (subst (λ n. P n w.own) u.same_limit h)

too_large :
    (max_nodes : ℤ) (s : Sizes) (d : ℤ) (m : SizeError)
    → d ≤ℤ max_nodes
    → s.min_size ≤ℤ d
    → Misfit max_nodes s d m
    → (m ≡ desired_gt_cluster_max) × (pos 0 ≤ℤ s.max_size) × (s.max_size <ℤ d)
too_large max_nodes s d m a b h = ground (arith, a, b, h)

too_small :
    (max_nodes : ℤ) (s : Sizes) (d : ℤ) (m : SizeError)
    → d ≤ℤ max_nodes
    → Below d s.max_size
    → Misfit max_nodes s d m
    → (m ≡ desired_lt_cluster_min) × (d <ℤ s.min_size)
too_small max_nodes s d m a b h = ground (arith, a, b, h)

-- A scale-out by a count that the service accepts, on a cluster that has as many nodes as it wants,
-- which number is within the configured and the cluster's own bounds, where the sizes and the
-- configuration do not change in between: the handler refuses it exactly where it leads above the
-- maximum of the cluster, with that for its message; else the new size is in the object and in the
-- row when so many nodes have been made and the wait for their creation begins, and the handler ends
-- with the result of the wait, the nodes of the database, and the status that they lead to. A policy
-- that has placed the nodes has a place for each.
pub scale_out_request-handled :
    (caller : Caller) (store : Store) (identity : ℕ) (c : ClusterRow) (k : ℕ) (setting : Setting)
    (w : World) (placements : Placements)
    → find_cluster caller store identity ≡ found c
    → scale_out_request caller store identity (some (some k))
      ≡ some (queued cluster_scale_out c.key.id (count (pos k)))
    → IsUnchanged caller c setting w
    → Allowed caller c (pos (length w.rows))
    → Returns setting
    → HasPlaces placements k
    → ((pos 0 ≤ℤ c.sizes.max_size)
        × (c.sizes.max_size <ℤ joined_by setting w k)
        × (do_scale_out setting none placements (some (pos k)) w
            ≡ some (refused (bad_size desired_gt_cluster_max))))
      ⊎ (Below (joined_by setting w k) c.sizes.max_size
          × Grows setting w k (do_scale_out setting none placements (some (pos k)) w))
scale_out_request-handled caller store identity c k setting w placements there accepted u allowed
      returns places =
    let (p, fits) = out_passes caller store identity c k there accepted in
    let within : joined_by setting w k ≤ℤ caller.max_nodes =
      subst (λ d. (d +ℤ pos k) ≤ℤ caller.max_nodes) u.as_desired fits in
    let above : c.sizes.min_size ≤ℤ joined_by setting w k =
      ground (arith, allowed, +ℤ_parts (pos (length w.rows)) (pos k)) in
    elim (do_scale_out_lem setting w placements k returns places p) [
      | inl (m, bad, e) ↦
          let (message, room, over) =
            too_large caller.max_nodes c.sizes (joined_by setting w k) m within above
              (seen caller c setting w u (λ n s. Misfit n s (joined_by setting w k) m) bad) in
          inl (room, over, e ∙ ap (λ x. some (refused (bad_size x))) message)
      | inr (fits, grows) ↦
          inr (subst (λ s. Below (joined_by setting w k) s.max_size) u.same_sizes fits.2, grows)
    ]

-- A scale-in by a count that the service accepts, on a cluster that has as many nodes as it wants, at
-- least one, which number is within the configured and the cluster's own bounds, and whose object
-- holds as many, where the sizes and the configuration do not change in between: the handler takes
-- the count for the nodes that are there if it is larger, and refuses it exactly where it leads
-- below the minimum of the cluster, with that for its message; else the new size is in the object
-- and in the row when the deletion of so many nodes has been started and the wait for them begins,
-- and the handler ends with the result of the wait, the nodes of the database, and the status that
-- they lead to.
pub scale_in_request-handled :
    (caller : Caller) (store : Store) (identity : ℕ) (c : ClusterRow) (k : ℕ) (setting : Setting)
    (w : World)
    → find_cluster caller store identity ≡ found c
    → scale_in_request caller store identity (some (some k))
      ≡ some (queued cluster_scale_in c.key.id (count (pos k)))
    → IsUnchanged caller c setting w
    → Allowed caller c (pos (length w.rows))
    → InRange setting.draw
    → Returns setting
    → length w.loaded ≡ length w.rows
    → 0 < length w.rows
    → ((left_of setting w (min_ℕ k (length w.rows)) <ℤ c.sizes.min_size)
        × (do_scale_in setting none (some (pos k)) w
            ≡ some (refused (bad_size desired_lt_cluster_min))))
      ⊎ ((c.sizes.min_size ≤ℤ left_of setting w (min_ℕ k (length w.rows)))
          × Shrinks setting w (min_ℕ k (length w.rows)) (do_scale_in setting none (some (pos k)) w))
scale_in_request-handled caller store identity c k setting w there accepted u allowed in_range
      returns loaded some_nodes =
    let p = in_passes caller store identity c k there accepted in
    let left = left_of setting w (min_ℕ k (length w.rows)) in
    let fits : (left ≤ℤ pos (length w.rows)) =
      ground (arith, -ℤ_parts (pos (length w.rows)) (pos (min_ℕ k (length w.rows)))) in
    let within : left ≤ℤ caller.max_nodes = ground (arith, fits, allowed) in
    let below : Below left c.sizes.max_size = ground (arith, fits, allowed) in
    elim (do_scale_in_lem setting w k in_range returns loaded some_nodes p) [
      | inl (m, bad, e) ↦
          let (message, under) =
            too_small caller.max_nodes c.sizes left m within below
              (seen caller c setting w u (λ n s. Misfit n s left m) bad) in
          inl (under, e ∙ ap (λ x. some (refused (bad_size x))) message)
      | inr (fine, shrinks) ↦ inr (subst (λ s. s.min_size ≤ℤ left) u.same_sizes fine.1, shrinks)
    ]
