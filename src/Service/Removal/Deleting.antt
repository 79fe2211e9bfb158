-- ===== src/Service/Removal/Deleting.antt =====
-- Which requests to delete nodes from a cluster are accepted.
use senlin.Prelude.{
  ℕ, ◌≡◌, refl, sym, ap, ◌∙◌, subst, ◌↔◌, Bool, Option, none, some, List, [], ◌∷◌, length, arith,
  ==_refl,
}
use senlin.Prelude.Int.{ℤ, pos, ◌-ℤ◌}
use senlin.Db.{cluster_del_nodes}
use senlin.Scaling.Adjust.{SizeError}
use senlin.Service.Find.{Found, found, not_found, multiple_choices}
use senlin.Service.{
  ClusterRow, NodeRow, Store, Caller, Complaint, nodes_in_use, to_remove, Reply, rejected, queued,
  find_cluster, find_node,
}
use senlin.Service.Heads.{with_cluster-found, some-eq, Allowed, check_target_iff}
use senlin.Service.Membership.{complain, queue_or, raise_or, check_target}
use senlin.Service.Removal.{
  OldNodes, is_stranger, is_depended, file_old, sort_old, complaints_on_old, delete_sorted,
  del_nodes_request,
}

-- A member of the cluster that no other node depends on.
pub record IsRemovable (cluster_id : ℕ) (n : NodeRow) : Type 0 where
  pub belongs : n.cluster_id ≡ some cluster_id
  pub unclaimed : n.node_dependents ≡ none

-- Each identity names such a node; the ids of these nodes.
pub data AllRemovable (caller : Caller) (store : Store) (cluster_id : ℕ)
    : List ℕ → List ℕ → Type 0 where
  none_left : AllRemovable caller store cluster_id [] []
  one_more :
      {i : ℕ} (n : NodeRow) {is ids : List ℕ}
      → find_node caller store i ≡ found n
      → IsRemovable cluster_id n
      → AllRemovable caller store cluster_id is ids
      → AllRemovable caller store cluster_id (i ∷ is) (n.key.id ∷ ids)

-- Nothing to complain about.
abbrev IsClean : OldNodes → Type 0
IsClean s = (s.depended ≡ []) × (s.unknown ≡ []) × (s.strangers ≡ [])

complaints_on_old-nil :
    (s : OldNodes) → complaints_on_old s ≡ [] → (s.unknown ≡ []) × (s.strangers ≡ [])
unfolding complaints_on_old complain
complaints_on_old-nil s e = ground (arith, e)

module _ (cluster_id : ℕ) where
  -- A round leaves nothing to complain about only if its node is removable.
  file_old-IsClean :
      (i : ℕ) (n : NodeRow) (rest : OldNodes)
      → IsClean (file_old cluster_id i (found n) rest)
      → IsRemovable cluster_id n
        × IsClean rest
        × ((file_old cluster_id i (found n) rest).removable ≡ n.key.id ∷ rest.removable)
  unfolding file_old is_stranger is_depended
  file_old-IsClean i n rest (a, b, c) = ground (arith, a, b, c)

  IsRemovable-file_old :
      (i : ℕ) (n : NodeRow) (rest : OldNodes)
      → IsRemovable cluster_id n
      → file_old cluster_id i (found n) rest ≡ record rest { removable = n.key.id ∷ rest.removable }
  unfolding file_old is_stranger is_depended
  IsRemovable-file_old i n rest h = rw (h.belongs, h.unclaimed, ==_refl cluster_id) refl

  module _ (caller : Caller) (store : Store) where
    file_old-AllRemovable :
        (i : ℕ) (is : List ℕ) (o : Found NodeRow) (rest : OldNodes)
        → find_node caller store i ≡ o
        → IsClean (file_old cluster_id i o rest)
        → (IsClean rest → AllRemovable caller store cluster_id is rest.removable)
        → AllRemovable caller store cluster_id (i ∷ is) (file_old cluster_id i o rest).removable
    file_old-AllRemovable i is (found n) rest at clean later =
        let (h, clean', same) = file_old-IsClean i n rest clean in
        subst (λ l. AllRemovable caller store cluster_id (i ∷ is) l) (sym same)
          (one_more n at h (later clean'))
    file_old-AllRemovable i is not_found rest at (a, b, c) later =
        absurd (unfold file_old in ground (arith, b))
    file_old-AllRemovable i is multiple_choices rest at (a, b, c) later =
        absurd (unfold file_old in ground (arith, b))

    sort_old-AllRemovable :
        (is : List ℕ)
        → IsClean (sort_old caller store cluster_id is)
        → AllRemovable caller store cluster_id is (sort_old caller store cluster_id is).removable
    unfolding sort_old
    sort_old-AllRemovable [] clean = none_left
    sort_old-AllRemovable (i ∷ is) clean =
        file_old-AllRemovable i is (find_node caller store i) (sort_old caller store cluster_id is)
          refl clean (sort_old-AllRemovable is)

    -- What the loop gathers from removable nodes.
    abbrev only : List ℕ → OldNodes
    only ids = record { removable = ids; unknown = []; strangers = []; depended = [] }

    AllRemovable-sort_old :
        {is ids : List ℕ}
        → AllRemovable caller store cluster_id is ids
        → sort_old caller store cluster_id is ≡ only ids
    unfolding sort_old
    AllRemovable-sort_old none_left = refl
    AllRemovable-sort_old (one_more {i} n at h rest) =
        rw (AllRemovable-sort_old rest, at) (IsRemovable-file_old i n _ h)

to_remove-eq :
    {a b : List ℕ} {m n : ℕ} {d e : Option Bool} → to_remove a m d ≡ to_remove b n e → a ≡ b
to_remove-eq e = cc

-- The size that the deletion of so many nodes leads to.
abbrev pub reduced : ClusterRow → List ℕ → ℤ
reduced c ids = c.sizes.desired_capacity -ℤ pos (length ids)

module _ (caller : Caller) (c : ClusterRow) (destroy : Option Bool) where
  -- The reply that accepts a request.
  abbrev pub accepted : List ℕ → Reply
  accepted ids = queued cluster_del_nodes c.key.id (to_remove ids (length ids) destroy)

  raise_or-accepted :
      (m : List Complaint) (o : Option SizeError) (s ids : List ℕ)
      → raise_or m (queue_or o (accepted s)) ≡ accepted ids
      → (m ≡ []) × (o ≡ none) × (s ≡ ids)
  unfolding raise_or queue_or
  raise_or-accepted [] none s ids e = (refl, refl, cc)
  raise_or-accepted [] (some message) s ids e = absurd (cc)
  raise_or-accepted (l ∷ m) o s ids e = absurd (cc)

  delete_sorted-accepted :
      (s : OldNodes) (d : List ℕ) (ids : List ℕ)
      → s.depended ≡ d
      → delete_sorted caller c destroy s ≡ accepted ids
      → IsClean s × (s.removable ≡ ids) × Allowed caller c (reduced c ids)
  delete_sorted-accepted s [] ids at e =
      let start : delete_sorted caller c destroy s
          ≡ raise_or (complaints_on_old s)
              (queue_or (check_target caller c (reduced c s.removable)) (accepted s.removable)) =
        unfold delete_sorted in rw (at) refl in
      let (none_said, fine, same) = raise_or-accepted _ _ s.removable ids (sym start ∙ e) in
      let (a, b) = complaints_on_old-nil s none_said in
      (
        (at, a, b),
        same,
        (check_target_iff caller c (reduced c ids)).0
            (subst (λ l. check_target caller c (reduced c l) ≡ none) same fine),
      )
  delete_sorted-accepted s (i ∷ d) ids at e =
      let start : delete_sorted caller c destroy s ≡ rejected (nodes_in_use (i ∷ d)) =
        unfold delete_sorted in rw (at) refl in
      absurd (cc)

  only-delete_sorted :
      (store : Store) (ids : List ℕ)
      → Allowed caller c (reduced c ids)
      → delete_sorted caller c destroy (only c.key.id caller store ids) ≡ accepted ids
  unfolding delete_sorted complaints_on_old complain raise_or queue_or
  only-delete_sorted store ids allowed =
      rw ((check_target_iff caller c (reduced c ids)).1 allowed) refl

-- A request to delete nodes from a cluster is accepted, with an action that has the ids given for
-- its to_remove and their number for its count, exactly when each identity names one node, which
-- is a member of the cluster and has no dependents, these are their ids in the order of the
-- request, and the desired capacity less their number is within the configured and the cluster's
-- own bounds.
pub del_nodes_request_iff :
    (caller : Caller) (store : Store) (identity : ℕ) (requested : List ℕ) (destroy : Option Bool)
    (c : ClusterRow) (ids : List ℕ)
    → find_cluster caller store identity ≡ found c
    → (del_nodes_request caller store identity requested destroy
        ≡ some (accepted caller c destroy ids))
      ↔ (AllRemovable caller store c.key.id requested ids × Allowed caller c (reduced c ids))
del_nodes_request_iff caller store identity requested destroy c ids there = (to, from)
  where
    start :
        del_nodes_request caller store identity requested destroy
        ≡ some (delete_sorted caller c destroy (sort_old caller store c.key.id requested))
    start = unfold del_nodes_request in with_cluster-found caller store identity _ there

    to :
        del_nodes_request caller store identity requested destroy
          ≡ some (accepted caller c destroy ids)
        → AllRemovable caller store c.key.id requested ids × Allowed caller c (reduced c ids)
    to e =
        let (clean, same, allowed) =
          delete_sorted-accepted caller c destroy _ _ ids refl (some-eq (sym start ∙ e)) in
        (
          subst (λ l. AllRemovable caller store c.key.id requested l) same
              (sort_old-AllRemovable c.key.id caller store requested clean),
          allowed,
        )

    from :
        AllRemovable caller store c.key.id requested ids × Allowed caller c (reduced c ids)
        → del_nodes_request caller store identity requested destroy
          ≡ some (accepted caller c destroy ids)
    from (fit, allowed) =
        start
        ∙ ap (λ s. some (delete_sorted caller c destroy s))
            (AllRemovable-sort_old c.key.id caller store fit)
        ∙ ap some (only-delete_sorted caller c destroy store ids allowed)
