-- ===== src/Service/Clusters/Created.antt =====
-- What a cluster is created with, and when one may be deleted.
use senlin.Prelude.{
  ℕ, ◌≡◌, refl, sym, ap, ◌∙◌, subst, ◌↔◌, ◌⊎◌, inl, inr, Bool, true, false, Option, none, some,
  contains, arith, Bool-cases,
}
use senlin.Prelude.Int.{ℤ, pos, negsuc, ◌≤ℤ◌, ◌<ℤ◌}
use senlin.Db.{cluster_delete}
use senlin.Scaling.Adjust.{SizeError, check_size_params, check_desired, check_min, check_max}
use senlin.Scaling.Checks.{Below, IfGiven}
use senlin.Service.Find.{Found, found, not_found, multiple_choices}
use senlin.Service.{
  ClusterRow, ProfileRow, Store, Caller, Rejection, bad_sizes, no_inputs, queued, find_cluster,
}
use senlin.Service.Heads.{with_cluster-found, some-eq}
use senlin.Service.Clusters.{
  CreateRequest, NewCluster, CreateReply, not_created, created, value_of, desired_capacity_of,
  or_default, sized_creation, with_profile, check_name, is_over_quota, create_request,
  is_busy_status, uses_of, delete_cluster, delete_request,
}

-- The ranges of the fields of a request.
pub record IsInFields (max_nodes : ℤ) (req : CreateRequest) : Type 0 where
  pub desired_range : IfGiven (value_of req.desired_capacity) (λ d. (pos 0 ≤ℤ d) × (d ≤ℤ max_nodes))
  pub min_range : IfGiven (value_of req.min_size) (λ n. (pos 0 ≤ℤ n) × (n ≤ℤ max_nodes))
  pub max_range : IfGiven (value_of req.max_size) (λ m. m ≤ℤ max_nodes)

-- The sizes of a new row are in order, and allow the capacity that it wants, if it has one.
pub record IsStartable (max_nodes : ℤ) (v : NewCluster) : Type 0 where
  pub ordered : Below v.min_size v.max_size
  pub some_room : (v.max_size <ℤ pos 0) ⊎ (pos 0 <ℤ v.max_size)
  pub not_negative : pos 0 ≤ℤ v.min_size
  pub fits :
      IfGiven v.desired_capacity (λ d. (d ≤ℤ max_nodes) × (v.min_size ≤ℤ d) × Below d v.max_size)

created-eq : {v w : NewCluster} → created v ≡ created w → v ≡ w
created-eq e = cc

not_created-created : {r : Rejection} {v : NewCluster} → not_created r ≡ created v → ⊥
not_created-created e = cc

sizes-IsStartable :
    (max_nodes : ℤ) (desired min_size max_size : Option ℤ) (name profile_id : ℕ)
    → IfGiven desired (λ d. (pos 0 ≤ℤ d) × (d ≤ℤ max_nodes))
    → IfGiven min_size (λ n. (pos 0 ≤ℤ n) × (n ≤ℤ max_nodes))
    → check_size_params max_nodes none desired min_size max_size true ≡ none
    → IsStartable max_nodes (record {
      name = name;
      profile_id = profile_id;
      desired_capacity = desired;
      min_size = or_default min_size (pos 0);
      max_size = or_default max_size (negsuc 0);
    })
unfolding check_size_params check_desired check_min check_max or_default
sizes-IsStartable max_nodes none none none name profile_id a b e = ground arith
sizes-IsStartable max_nodes none none (some m) name profile_id a b e = ground arith
sizes-IsStartable max_nodes none (some n) none name profile_id a b e = ground arith
sizes-IsStartable max_nodes none (some n) (some m) name profile_id a b e = ground arith
sizes-IsStartable max_nodes (some d) none none name profile_id a b e = ground arith
sizes-IsStartable max_nodes (some d) none (some m) name profile_id a b e = ground arith
sizes-IsStartable max_nodes (some d) (some n) none name profile_id a b e = ground arith
sizes-IsStartable max_nodes (some d) (some n) (some m) name profile_id a b e = ground arith

module _ (max_nodes : ℤ) (req : CreateRequest) (fields : IsInFields max_nodes req)
    (room : pos 0 ≤ℤ max_nodes) where
  desired-range : IfGiven (desired_capacity_of req) (λ d. (pos 0 ≤ℤ d) × (d ≤ℤ max_nodes))
  unfolding desired_capacity_of value_of
  desired-range = ground (arith, fields.desired_range, fields.min_range, room)

  sized_creation-created :
      (profile_id : ℕ) (v : NewCluster) (o : Option SizeError)
      → check_size_params max_nodes none
          (desired_capacity_of req)
          (value_of req.min_size)
          (value_of req.max_size)
          true
        ≡ o
      → sized_creation max_nodes req profile_id ≡ created v
      → IsStartable max_nodes v
  unfolding sized_creation
  sized_creation-created profile_id v none fine e =
      subst (IsStartable max_nodes) (created-eq (sym (rw (sized_creation, fine) refl) ∙ e))
        (sizes-IsStartable max_nodes _ _ _ req.name profile_id desired-range fields.min_range fine)
  sized_creation-created profile_id v (some message) bad e =
      absurd (not_created-created {r = bad_sizes message} (sym (rw (sized_creation, bad) refl) ∙ e))

  with_profile-created :
      (o : Found ProfileRow) (v : NewCluster)
      → with_profile max_nodes req o ≡ created v
      → IsStartable max_nodes v
  unfolding with_profile
  with_profile-created (found p) v e = sized_creation-created p.key.id v _ refl e
  with_profile-created not_found v e = absurd (not_created-created e)
  with_profile-created multiple_choices v e = absurd (not_created-created e)

check_name-created :
    (name_unique : Bool) (same : Found ClusterRow) (rest : CreateReply) {v : NewCluster}
    → check_name name_unique same rest ≡ created v
    → rest ≡ created v
unfolding check_name
check_name-created false same rest e = e
check_name-created true not_found rest e = e
check_name-created true (found c) rest e = absurd (not_created-created e)
check_name-created true multiple_choices rest e = absurd (not_created-created e)

-- A cluster is created with sizes in order: the minimum is not negative and not above the maximum,
-- where there is one, and the capacity that it wants, if it has one, is between them and within the
-- configured number of nodes. The values of the request are in the ranges of its fields.
pub create_request-IsStartable :
    (caller : Caller) (store : Store) (max_clusters : ℕ) (name_unique : Bool) (req : CreateRequest)
    (v : NewCluster)
    → IsInFields caller.max_nodes req
    → pos 0 ≤ℤ caller.max_nodes
    → create_request caller store max_clusters name_unique req ≡ created v
    → IsStartable caller.max_nodes v
unfolding create_request
create_request-IsStartable caller store max_clusters name_unique req v fields room e =
    elim (Bool-cases (is_over_quota caller store max_clusters)) [
      | inl p ↦ absurd (not_created-created (rw p at e))
      | inr p ↦
          with_profile-created caller.max_nodes req fields room _ v
            (check_name-created name_unique _ _ (rw p at e))
    ]

-- A cluster that nothing refers to, and that is in none of the statuses of a change.
pub record IsDeletable (store : Store) (c : ClusterRow) : Type 0 where
  pub at_rest : is_busy_status c.status ≡ false
  pub no_profiles : c.profile_dependents ≡ none
  pub no_policies : contains store.bindings c.key.id ≡ false
  pub no_receivers : contains store.receivers c.key.id ≡ false

delete_cluster_iff :
    (store : Store) (c : ClusterRow)
    → (delete_cluster store c ≡ queued cluster_delete c.key.id no_inputs) ↔ IsDeletable store c
unfolding delete_cluster uses_of
delete_cluster_iff store c =
    (λ e. ground (arith, e), λ (h : IsDeletable store c). ground (arith, h))

-- A request to delete a cluster that is there is accepted exactly when the cluster is in none of
-- the statuses creating, updating, deleting and recovering, no profile refers to it, no policy is
-- attached to it and no receiver stands for it.
pub delete_request_iff :
    (caller : Caller) (store : Store) (identity : ℕ) (c : ClusterRow)
    → find_cluster caller store identity ≡ found c
    → (delete_request caller store identity ≡ some (queued cluster_delete c.key.id no_inputs))
      ↔ IsDeletable store c
unfolding delete_request
delete_request_iff caller store identity c there =
    let start =
      with_cluster-found caller store identity (λ k. some (delete_cluster store k)) there in
    (
      λ e. (delete_cluster_iff store c).0 (some-eq (sym start ∙ e)),
      λ (h : IsDeletable store c). start ∙ ap some ((delete_cluster_iff store c).1 h),
    )
