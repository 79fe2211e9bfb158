-- ===== src/Engine/NodeLife.antt =====
-- The operations of the `Node` class of senlin/engine/node.py: `set_status`, `do_create`,
-- `do_delete`, `do_update`, `do_join`, `do_leave`, `do_check`, `do_recover` and `do_operation`,
-- with `node_migrate` and `node_delete` of senlin/db/sqlalchemy/api.py. What the profile of the
-- node answers is an argument. The object and its row are one; reasons and names are left out.
pub mod Settled
use senlin.Prelude.{ℕ, Bool, true, false, not, Option, none, some, ◌==◌, if◌then◌else◌}
use senlin.Prelude.Int.{ℤ, pos, negsuc}
use senlin.Node.{
  NodeStatus, init, active, error, warning, creating, updating, deleting, recovering, operating,
}

pub record NodeState : Type 0 where
  pub status : NodeStatus
  pub physical_id : Option ℕ
  pub created_at : Option ℕ
  pub updated_at : Option ℕ
  pub profile_id : ℕ
  -- `none` is the empty string
  pub cluster_id : Option ℕ
  pub index : ℤ
  pub role : Option ℕ
  -- `data['recovery']` says that the object was made anew
  pub recreated : Bool

-- What a call of the profile ends with: a value, or the exception that the operation expects.
pub data Answer {ℓ} (A : Type ℓ) : Type ℓ where
  answers : A → Answer A
  raises : Answer A

-- `create_object`, whose exception may bring the id of the resource.
pub data Creation : Type 0 where
  made : Option ℕ → Creation
  failed_with : Option ℕ → Creation

-- `status not in [CREATING, UPDATING, RECOVERING, OPERATING]`
unfoldable pub is_stamped : NodeStatus → Bool
is_stamped creating = false
is_stamped updating = false
is_stamped recovering = false
is_stamped operating = false
is_stamped init = true
is_stamped active = true
is_stamped error = true
is_stamped warning = true
is_stamped deleting = true

-- `status == NS_ACTIVE and self.status == NS_CREATING`
unfoldable pub ends_creation : NodeStatus → NodeStatus → Bool
ends_creation active creating = true
ends_creation _ _ = false

unfoldable pub set_status : ℕ → NodeStatus → NodeState → NodeState
unfolding is_stamped ends_creation
set_status now status s = record s {
  status = status;
  created_at = if ends_creation status s.status then some now else s.created_at;
  updated_at = if is_stamped status then some now else s.updated_at;
}

abbrev pub with_physical : Option ℕ → NodeState → NodeState
with_physical physical_id s = record s { physical_id = physical_id }

-- The end of `do_create`.
unfoldable pub after_create : ℕ → Creation → NodeState → Bool × NodeState
unfolding set_status
after_create now (made physical_id) s = (true, with_physical physical_id (set_status now active s))
after_create now (failed_with resource_id) s =
    (false, with_physical resource_id (set_status now error s))

unfoldable pub is_init : NodeStatus → Bool
is_init init = true
is_init _ = false

unfoldable pub do_create : ℕ → Creation → NodeState → Bool × NodeState
unfolding after_create is_init
do_create now creation s =
    if is_init s.status then after_create now creation (set_status now creating s) else (false, s)

-- `do_delete`; `none` is the row that is gone. The profile is only asked for a physical object.
unfoldable pub do_delete : ℕ → Answer Bool → NodeState → Bool × Option NodeState
unfolding set_status
do_delete now answer s =
    let s1 = set_status now deleting s in
    elim s.physical_id [
      | none ↦ (true, none)
      | some _ ↦ elim answer [
        | answers _ ↦ (true, none)
        | raises ↦ (false, some (set_status now error s1))
      ]
    ]

-- The end of `do_update`, with the new profile.
unfoldable pub after_update : ℕ → ℕ → Answer Bool → NodeState → Bool × NodeState
unfolding set_status
after_update now profile_id (answers true) s =
    (true, record (set_status now active s) { profile_id = profile_id })
after_update now profile_id (answers false) s = (false, s)
after_update now profile_id raises s = (false, set_status now error s)

unfoldable pub do_update : ℕ → Option ℕ → Answer Bool → NodeState → Bool × NodeState
unfolding after_update
do_update now new_profile answer s =
    let s1 = set_status now updating s in
    elim s.physical_id [
      | none ↦ (false, s)
      | some _ ↦ elim new_profile [
        | none ↦ (true, set_status now active s1)
        | some profile_id ↦ after_update now profile_id answer s1
      ]
    ]

-- `node_migrate`, where the next index of the cluster is `next`. Neither caller gives a role.
unfoldable pub migrate_index : Option ℕ → Option ℕ → ℤ → ℤ → ℤ
migrate_index from_cluster (some c) next index = next
migrate_index (some c) none next index = negsuc 0
migrate_index none none next index = index

unfoldable pub node_migrate : ℕ → Option ℕ → ℤ → NodeState → NodeState
unfolding migrate_index
node_migrate timestamp to_cluster next s = record s {
  cluster_id = to_cluster;
  index = migrate_index s.cluster_id to_cluster next s.index;
  updated_at = some timestamp;
  role = none;
}

-- `self.cluster_id == cluster_id`
unfoldable pub is_member : ℕ → Option ℕ → Bool
is_member cluster_id none = false
is_member cluster_id (some c) = c == cluster_id

-- The end of `do_join`, where a failure is rolled back.
unfoldable pub after_join : ℕ → Bool → NodeState → Bool × NodeState
unfolding node_migrate
after_join now true s = (true, s)
after_join now false s = (false, record (node_migrate now none (pos 0) s) { index = negsuc 0 })

unfoldable pub do_join : ℕ → ℕ → ℤ → Bool → NodeState → Bool × NodeState
unfolding node_migrate is_member after_join
do_join now cluster_id next joins s =
    if is_member cluster_id s.cluster_id
    then (true, s)
    else after_join now joins (node_migrate now (some cluster_id) next s)

unfoldable pub do_leave : ℕ → Bool → NodeState → Bool × NodeState
unfolding node_migrate
do_leave now leaves s = elim s.cluster_id [
  | none ↦ (true, s)
  | some c ↦
      if leaves
      then (true, record (node_migrate now none (pos 0) s) { index = negsuc 0 })
      else (false, s)
]

-- The end of `do_check`.
unfoldable pub checked_active : ℕ → NodeStatus → NodeState → NodeState
unfolding set_status
checked_active now warning s = set_status now warning s
checked_active now status s = set_status now active s

unfoldable pub after_node_check : ℕ → Answer Bool → NodeState → Bool × NodeState
unfolding checked_active
after_node_check now raises s = (false, set_status now error s)
after_node_check now (answers true) s = (true, checked_active now s.status s)
after_node_check now (answers false) s = (true, set_status now error s)

unfoldable pub do_check : ℕ → Answer Bool → NodeState → Bool × NodeState
unfolding after_node_check
do_check now answer s = elim s.physical_id [
  | none ↦ (false, s)
  | some _ ↦ after_node_check now answer s
]

-- The check before a recovery, if one is asked for.
unfoldable pub is_fine : Option (Answer Bool) → Bool
is_fine (some (answers res)) = res
is_fine (some raises) = false
is_fine none = false

-- The object after a recovery, which may be a new one.
unfoldable pub replace_physical : ℕ → ℕ → NodeState → NodeState
replace_physical old new s =
    if old == new then s else record s { physical_id = some new; recreated = true }

unfoldable pub after_recover : ℕ → ℕ → Answer (Option ℕ) → NodeState → Bool × NodeState
unfolding set_status replace_physical
after_recover now old raises s = (false, set_status now error s)
after_recover now old (answers none) s = (false, set_status now error s)
after_recover now old (answers (some new)) s =
    (true, replace_physical old new (set_status now active s))

unfoldable pub do_recover :
    ℕ → Option (Answer Bool) → Answer (Option ℕ) → NodeState → Bool × NodeState
unfolding is_fine after_recover
do_recover now check answer s = elim s.physical_id [
  | none ↦ (false, s)
  | some physical_id ↦
      if is_fine check
      then (true, set_status now active s)
      else after_recover now physical_id answer (set_status now recovering s)
]

unfoldable pub after_operation : ℕ → Answer Bool → NodeState → Bool × NodeState
unfolding set_status
after_operation now raises s = (false, set_status now error s)
after_operation now (answers _) s = (true, set_status now active s)

unfoldable pub do_operation : ℕ → Answer Bool → NodeState → Bool × NodeState
unfolding after_operation
do_operation now answer s = elim s.physical_id [
  | none ↦ (false, s)
  | some _ ↦ after_operation now answer (set_status now operating s)
]
