-- ===== src/Service/Clusters.antt =====
-- `cluster_create`, `cluster_update` and `cluster_delete` of senlin/engine/service.py. `none` is an
-- exception that the code does not expect.
pub mod Created
use senlin.Prelude.{
  ℕ, zero, suc, Bool, true, false, not, ◌&&◌, Option, none, some, List, [], ◌∷◌, length, contains,
  ◌==◌, if◌then◌else◌, leb, ◌>>=◌,
}
use senlin.Prelude.Int.{ℤ, pos, negsuc}
use senlin.Db.{cluster_update, cluster_delete}
use senlin.Scaling.Adjust.{SizeError, check_size_params}
use senlin.Service.Find.{
  Found, found, not_found, multiple_choices, Key, filter_by, in_project, query_by_name, find,
}
use senlin.Service.{
  RowStatus, cs_creating, cs_updating, cs_deleting, cs_recovering, cs_error, ClusterRow, ProfileRow,
  Store, Caller, InUse, by_profiles, by_policies, by_receivers, Rejection, resource_not_found,
  ambiguous, action_in_progress, cluster_in_use, bad_sizes, forbidden, name_exists, unknown_profile,
  other_profile_type, cluster_in_error, nothing_to_update, Changes, Inputs, no_inputs, changes,
  Reply, rejected, queued, with_cluster,
}

-- Each size is `none` where the request leaves it out, and `some none` where it is null.
pub record CreateRequest : Type 0 where
  pub name : ℕ
  pub profile : ℕ
  pub desired_capacity : Option (Option ℤ)
  pub min_size : Option (Option ℤ)
  pub max_size : Option (Option ℤ)

-- The sizes among the values of the row.
pub record NewCluster : Type 0 where
  pub name : ℕ
  pub profile_id : ℕ
  pub desired_capacity : Option ℤ
  pub min_size : ℤ
  pub max_size : ℤ

-- The row that is created, with a ready CLUSTER_CREATE action on it, or the exception.
pub data CreateReply : Type 0 where
  not_created : Rejection → CreateReply
  created : NewCluster → CreateReply

-- The value of a field, which is null where it is left out.
unfoldable pub value_of : Option (Option ℤ) → Option ℤ
value_of none = none
value_of (some v) = v

unfoldable pub desired_capacity_of : CreateRequest → Option ℤ
unfolding value_of
desired_capacity_of req = elim req.desired_capacity [
  | some desired ↦ desired
  | none ↦ elim req.min_size [ some min_size ↦ min_size | none ↦ some (pos 0) ]
]

-- `req.min_size or default`: zero is falsy.
unfoldable pub or_default : Option ℤ → ℤ → ℤ
or_default none default = default
or_default (some (pos zero)) default = default
or_default (some v) default = v

-- The size checks, which have no cluster yet, and the values of the row.
unfoldable pub sized_creation : ℤ → CreateRequest → ℕ → CreateReply
unfolding value_of desired_capacity_of or_default
sized_creation max_nodes req profile_id =
    let desired = desired_capacity_of req in
    elim (check_size_params max_nodes none desired (value_of req.min_size) (value_of req.max_size)
      true) [
        | some message ↦ not_created (bad_sizes message)
        | none ↦ created (record {
          name = req.name;
          profile_id = profile_id;
          desired_capacity = desired;
          min_size = or_default (value_of req.min_size) (pos 0);
          max_size = or_default (value_of req.max_size) (negsuc 0);
        })
      ]

unfoldable pub with_profile : ℤ → CreateRequest → Found ProfileRow → CreateReply
unfolding sized_creation
with_profile max_nodes req (found p) = sized_creation max_nodes req p.key.id
with_profile max_nodes req not_found = not_created unknown_profile
with_profile max_nodes req multiple_choices = not_created ambiguous

-- `if CONF.name_unique: ...`
unfoldable pub check_name : Bool → Found ClusterRow → CreateReply → CreateReply
check_name false same rest = rest
check_name true not_found rest = rest
check_name true (found c) rest = not_created name_exists
check_name true multiple_choices rest = not_created ambiguous

-- `check_cluster_quota`
unfoldable pub is_over_quota : Caller → Store → ℕ → Bool
unfolding filter_by
is_over_quota caller store maximum =
    leb maximum
      (length (filter_by (λ (c : ClusterRow). c.key.project == caller.project) store.clusters))

-- `max_clusters` and `name_unique` are those of the configuration.
unfoldable pub create_request : Caller → Store → ℕ → Bool → CreateRequest → CreateReply
unfolding is_over_quota check_name with_profile
create_request caller store max_clusters name_unique req =
    if is_over_quota caller store max_clusters
    then not_created forbidden
    else check_name name_unique
        (query_by_name (λ (c : ClusterRow). c.key) caller.texts caller.project req.name
          store.clusters)
        (with_profile caller.max_nodes req
          (find (λ (p : ProfileRow). p.key) caller.texts caller.project req.profile store.profiles))

-- The statuses that a deletion waits for.
unfoldable pub is_busy_status : RowStatus → Bool
is_busy_status status = elim status [
  | cs_creating ↦ true
  | cs_updating ↦ true
  | cs_deleting ↦ true
  | cs_recovering ↦ true
  | _ ↦ false
]

-- `msg`
unfoldable pub uses_of : Store → ClusterRow → List InUse
uses_of store c =
    let receivers = if contains store.receivers c.key.id then by_receivers ∷ [] else [] in
    let policies =
      if contains store.bindings c.key.id then by_policies ∷ receivers else receivers in
    elim c.profile_dependents [ none ↦ policies | some ids ↦ by_profiles ids ∷ policies ]

unfoldable pub delete_cluster : Store → ClusterRow → Reply
unfolding is_busy_status uses_of
delete_cluster store c =
    if is_busy_status c.status
    then rejected (action_in_progress c.status)
    else elim (uses_of store c) [
      | [] ↦ queued cluster_delete c.key.id no_inputs
      | u ∷ us ↦ rejected (cluster_in_use (u ∷ us))
    ]

unfoldable pub delete_request : Caller → Store → ℕ → Option Reply
unfolding with_cluster delete_cluster
delete_request caller store identity =
    with_cluster caller store identity (λ (c : ClusterRow). some (delete_cluster store c))
