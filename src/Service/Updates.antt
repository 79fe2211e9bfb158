-- ===== src/Service/Updates.antt =====
-- `cluster_update`, `_validate_replace_nodes` and `cluster_replace_nodes` of
-- senlin/engine/service.py. `none` is an exception that the code does not expect.
pub mod Replaced
use senlin.Prelude.{
  ℕ, Bool, true, false, not, ◌||◌, Option, none, some, List, [], ◌∷◌, ◌++◌, ◌==◌, if◌then◌else◌,
  ◌>>=◌,
}
use senlin.Db.{cluster_update, cluster_replace_nodes}
use senlin.Table.{insert}
use senlin.Service.Find.{Found, found, not_found, multiple_choices, find}
use senlin.Service.{
  cs_error, ClusterRow, NodeRow, ProfileRow, Store, Caller, Complaint, not_matching, owned,
  not_active, not_members, not_found_old, not_found_new, Rejection, resource_not_found, ambiguous,
  unknown_profile, other_profile_type, cluster_in_error, nothing_to_update, Changes, changes,
  replacements, Reply, rejected, queued, with_cluster, find_node, profile_type_of,
}
use senlin.Service.Membership.{is_node_active, is_owned, complain, raise_or}
use senlin.Service.Removal.{is_stranger}

-- A property is `none` where the request leaves it out; of the profile, also where it is null. Of
-- the others a null is a value like any other; a null `profile_only` is not modelled.
pub record UpdateRequest : Type 0 where
  pub profile_id : Option ℕ
  pub metadata : Option ℕ
  pub timeout : Option ℕ
  pub name : Option ℕ
  pub config : Option ℕ
  pub profile_only : Option Bool

-- `req.obj_attr_is_set(p) and req.p != cluster.p`
unfoldable pub if_new : Option ℕ → ℕ → Option ℕ
if_new none old = none
if_new (some v) old = if v == old then none else some v

-- The new profile, where one is asked for, or the exception.
pub data NewProfile : Type 0 where
  refused_profile : Rejection → NewProfile
  profile_change : Option ℕ → NewProfile

unfoldable pub find_profile : Caller → Store → ℕ → Found ProfileRow
find_profile caller store identity =
    find (λ (p : ProfileRow). p.key) caller.texts caller.project identity store.profiles

-- The tests on the two profiles.
unfoldable pub compare_profiles : ProfileRow → Found ProfileRow → NewProfile
compare_profiles old (found new) =
    if new.profile_type == old.profile_type
    then profile_change (if old.key.id == new.key.id then none else some new.key.id)
    else refused_profile other_profile_type
compare_profiles old not_found = refused_profile unknown_profile
compare_profiles old multiple_choices = refused_profile ambiguous

unfoldable pub new_profile : Caller → Store → ClusterRow → Option ℕ → NewProfile
unfolding find_profile compare_profiles
new_profile caller store c none = profile_change none
new_profile caller store c (some wanted) = elim (find_profile caller store c.profile_id) [
  | found old ↦ compare_profiles old (find_profile caller store wanted)
  | not_found ↦ refused_profile resource_not_found
  | multiple_choices ↦ refused_profile ambiguous
]

unfoldable pub changes_of : ClusterRow → UpdateRequest → Option ℕ → Changes
unfolding if_new
changes_of c req new_profile_id = record {
  new_profile_id = new_profile_id;
  metadata = if_new req.metadata c.metadata;
  timeout = if_new req.timeout c.timeout;
  name = if_new req.name c.key.name;
  config = if_new req.config c.config;
  profile_only = req.profile_only;
}

abbrev is_given {ℓ} : {A : Type ℓ} → Option A → Bool
is_given none = false
is_given (some a) = true

-- `if not inputs:`
unfoldable pub has_changes : Changes → Bool
has_changes i =
    is_given i.new_profile_id
    || is_given i.metadata
    || is_given i.timeout
    || is_given i.name
    || is_given i.config
    || is_given i.profile_only

unfoldable pub queue_changes : ClusterRow → Changes → Reply
unfolding has_changes
queue_changes c i =
    if has_changes i then queued cluster_update c.key.id (changes i) else rejected nothing_to_update

unfoldable pub update_cluster : Caller → Store → UpdateRequest → ClusterRow → Reply
unfolding new_profile changes_of queue_changes
update_cluster caller store req c = elim c.status [
  | cs_error ↦ rejected cluster_in_error
  | _ ↦ elim (new_profile caller store c req.profile_id) [
    | refused_profile r ↦ rejected r
    | profile_change p ↦ queue_changes c (changes_of c req p)
  ]
]

unfoldable pub update_request : Caller → Store → ℕ → UpdateRequest → Option Reply
unfolding with_cluster update_cluster
update_request caller store identity req =
    with_cluster caller store identity
      (λ (c : ClusterRow). some (update_cluster caller store req c))

-- The map and the lists of `_validate_replace_nodes`.
pub record Pairs : Type 0 where
  pub pairs : List (ℕ × ℕ)
  pub outsiders : List ℕ
  pub taken : List ℕ
  pub unready : List ℕ
  pub unlike : List ℕ
  pub no_old : List ℕ
  pub no_new : List ℕ

-- `list.append` where the test holds.
abbrev pub append_if : Bool → ℕ → List ℕ → List ℕ
append_if test i l = if test then l ++ (i ∷ []) else l

-- The end of a round, for an original and its replacement that are there.
unfoldable pub file_pair : ℕ → ℕ → ℕ → ℕ → NodeRow → NodeRow → ℕ → Pairs → Pairs
unfolding is_stranger is_owned is_node_active
file_pair cluster_id cluster_type i j old new node_type s = record {
  pairs = insert old.key.id new.key.id s.pairs;
  outsiders = append_if (is_stranger cluster_id old) i s.outsiders;
  taken = append_if (is_owned new) j s.taken;
  unready = append_if (not (is_node_active new)) j s.unready;
  unlike = append_if (not (node_type == cluster_type)) j s.unlike;
  no_old = s.no_old;
  no_new = s.no_new;
}

unfoldable pub lose_old : ℕ → Pairs → Pairs
lose_old i s = record s { no_old = s.no_old ++ (i ∷ []) }

unfoldable pub lose_new : ℕ → Pairs → Pairs
lose_new j s = record s { no_new = s.no_new ++ (j ∷ []) }

module _ (caller : Caller) (store : Store) (cluster_id cluster_type : ℕ) where
  -- The round, once the original and the replacement have been looked for.
  unfoldable pub pair_round : ℕ → ℕ → Found NodeRow → Found NodeRow → Pairs → Option Pairs
  unfolding file_pair lose_old lose_new profile_type_of
  pair_round i j (found old) (found new) s = do
    node_type ← profile_type_of caller store new.profile_id
    some (file_pair cluster_id cluster_type i j old new node_type s)
  pair_round i j (found old) not_found s = some (lose_new j s)
  pair_round i j (found old) multiple_choices s = some (lose_new j s)
  pair_round i j not_found new s = some (lose_old i s)
  pair_round i j multiple_choices new s = some (lose_old i s)

  -- The loop over `nodes.items()`.
  unfoldable pub sort_pairs : List (ℕ × ℕ) → Pairs → Option Pairs
  unfolding pair_round
  sort_pairs [] s = some s
  sort_pairs ((i, j) ∷ rest) s = do
    s' ← pair_round i j (find_node caller store i) (find_node caller store j) s
    sort_pairs rest s'

unfoldable pub complaints_on_pairs : Pairs → List Complaint
unfolding complain
complaints_on_pairs s = complain not_members s.outsiders (
    complain owned s.taken (
      complain not_active s.unready (
        complain not_matching s.unlike
          (complain not_found_old s.no_old (complain not_found_new s.no_new [])))))

abbrev pub no_pairs : Pairs
no_pairs = record {
  pairs = [];
  outsiders = [];
  taken = [];
  unready = [];
  unlike = [];
  no_old = [];
  no_new = [];
}

-- The end of `_validate_replace_nodes`, and the creation of the action.
unfoldable pub queue_pairs : ℕ → Pairs → Reply
unfolding raise_or complaints_on_pairs
queue_pairs cluster_id s =
    raise_or (complaints_on_pairs s)
      (queued cluster_replace_nodes cluster_id (replacements s.pairs))

unfoldable pub replace_nodes_request : Caller → Store → ℕ → List (ℕ × ℕ) → Option Reply
unfolding with_cluster sort_pairs queue_pairs
replace_nodes_request caller store identity requested =
    with_cluster caller store identity (λ (c : ClusterRow). (do
      cluster_type ← profile_type_of caller store c.profile_id
      s ← sort_pairs caller store c.key.id cluster_type requested no_pairs
      some (queue_pairs c.key.id s)))
