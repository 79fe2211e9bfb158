-- ===== src/Service.antt =====
-- The requests that senlin/engine/service.py takes: what it reads of the tables, and what it
-- answers. Ids, names, profile types and projects are numbers.
pub mod Find
pub mod Heads
pub mod Membership
pub mod Removal
pub mod Sizing
pub mod Clusters
pub mod Updates
use senlin.Prelude.{ℕ, Bool, Option, none, some, List, ◌>>=◌}
use senlin.Prelude.Int.{ℤ}
use senlin.Db.{ActionName}
use senlin.Node.{NodeStatus}
use senlin.Scaling.Adjust.{Sizes, SizeError, ResizeInputs}
use senlin.Service.Find.{Found, found, not_found, multiple_choices, Key, Texts, find, get}

-- CLUSTER_STATUSES
pub data RowStatus : Type 0 where
  cs_init cs_active cs_creating cs_updating cs_resizing cs_deleting : RowStatus
  cs_checking cs_recovering cs_critical cs_error cs_warning cs_operating : RowStatus

-- `profile_dependents` is `dependents['profiles']`.
pub record ClusterRow : Type 0 where
  pub key : Key
  pub status : RowStatus
  pub sizes : Sizes
  pub profile_id : ℕ
  pub profile_dependents : Option (List ℕ)
  pub metadata : ℕ
  pub timeout : ℕ
  pub config : ℕ

-- `cluster_id` is `none` for the empty text; `node_dependents` is `dependents['nodes']`.
pub record NodeRow : Type 0 where
  pub key : Key
  pub status : NodeStatus
  pub cluster_id : Option ℕ
  pub profile_id : ℕ
  pub node_dependents : Option (List ℕ)

pub record ProfileRow : Type 0 where
  pub key : Key
  pub profile_type : ℕ

-- The tables; a binding and a receiver are the id of their cluster.
pub record Store : Type 0 where
  pub clusters : List ClusterRow
  pub nodes : List NodeRow
  pub profiles : List ProfileRow
  pub bindings : List ℕ
  pub receivers : List ℕ

-- The project of the request, the configuration, and the tests on texts.
pub record Caller : Type 0 where
  pub project : ℕ
  pub max_nodes : ℤ
  pub texts : Texts

-- The lines of the message of a `BadRequest`, each with the nodes that it names.
pub data Complaint : Type 0 where
  not_matching owned not_active not_found_nodes not_members : List ℕ → Complaint
  not_found_old not_found_new : List ℕ → Complaint

-- The lines of the reason why a cluster is in use.
pub data InUse : Type 0 where
  by_profiles : List ℕ → InUse
  by_policies by_receivers : InUse

-- The exceptions that the requests raise by intent.
pub data Rejection : Type 0 where
  resource_not_found ambiguous : Rejection
  action_in_progress : RowStatus → Rejection
  cluster_in_use : List InUse → Rejection
  nodes_in_use : List ℕ → Rejection
  bad_nodes : List Complaint → Rejection
  bad_sizes : SizeError → Rejection
  missing_number missing_adjustment_type number_not_positive zero_count : Rejection
  forbidden name_exists unknown_profile other_profile_type : Rejection
  cluster_in_error nothing_to_update : Rejection

-- The inputs of an update; the values of the properties are numbers.
pub record Changes : Type 0 where
  pub new_profile_id : Option ℕ
  pub metadata : Option ℕ
  pub timeout : Option ℕ
  pub name : Option ℕ
  pub config : Option ℕ
  pub profile_only : Option Bool

-- `inputs` of the action
pub data Inputs : Type 0 where
  no_inputs : Inputs
  nodes : List ℕ → Inputs
  to_remove : List ℕ → ℕ → Option Bool → Inputs
  replacements : List (ℕ × ℕ) → Inputs
  count : ℤ → Inputs
  sizes : ResizeInputs → Inputs
  changes : Changes → Inputs

-- The ready action that a request creates on its cluster.
pub data Reply : Type 0 where
  rejected : Rejection → Reply
  queued : ActionName → ℕ → Inputs → Reply

abbrev pub find_cluster : Caller → Store → ℕ → Found ClusterRow
find_cluster caller store identity =
    find (λ (c : ClusterRow). c.key) caller.texts caller.project identity store.clusters

-- `co.Cluster.find(ctx, req.identity)` at the head of a request.
unfoldable pub with_cluster : Caller → Store → ℕ → (ClusterRow → Option Reply) → Option Reply
with_cluster caller store identity request = elim (find_cluster caller store identity) [
  | found c ↦ request c
  | not_found ↦ some (rejected resource_not_found)
  | multiple_choices ↦ some (rejected ambiguous)
]

abbrev pub find_node : Caller → Store → ℕ → Found NodeRow
find_node caller store identity =
    find (λ (n : NodeRow). n.key) caller.texts caller.project identity store.nodes

-- `Profile.get(...).type`, which raises where there is no such profile.
unfoldable pub profile_type_of : Caller → Store → ℕ → Option ℕ
profile_type_of caller store id =
    elim (get (λ (p : ProfileRow). p.key) caller.texts caller.project id store.profiles) [
      | found p ↦ some p.profile_type
      | _ ↦ none
    ]
