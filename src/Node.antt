-- ===== src/Node.antt =====
-- What the engine reads of a node: the `Node` of senlin/engine/node.py with the statuses of
-- senlin/common/consts.py. Ids and time stamps are numbers; `none` stands for `None`.
use senlin.Prelude.{ℕ, Bool, true, false, Option}

pub data NodeStatus : Type 0 where
  init active error warning creating updating deleting recovering operating : NodeStatus

-- `region_name` and `zone` are the entries of `data['placement']`.
pub record Node : Type 0 where
  pub id : ℕ
  pub status : NodeStatus
  pub created_at : Option ℕ
  pub profile_created_at : ℕ
  pub region_name : Option ℕ
  pub zone : Option ℕ

-- `n.status == consts.NS_ERROR or n.status == consts.NS_WARNING`
unfoldable pub is_bad : Node → Bool
is_bad n = elim n.status [ error ↦ true | warning ↦ true | _ ↦ false ]
