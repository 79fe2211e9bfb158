-- ===== src/Engine/PolicyCheck.antt =====
-- `policy_check` and `_check_result` of senlin/engine/actions/base.py, with `cooldown_inprogress`
-- of senlin/objects/cluster_policy.py. What a policy makes of the data of the action is an
-- argument; the reasons in the data are left out.
pub mod FirstRefusal
use senlin.Prelude.{
  ℕ, zero, suc, ◌+◌, Bool, true, false, not, Option, none, some, List, [], ◌∷◌, ltb, if◌then◌else◌,
}

pub data Target : Type 0 where
  before after : Target

-- `action.data`: whether its status is CHECK_OK, and the rest of it.
pub record CheckData {ℓ} (A : Type ℓ) : Type ℓ where
  pub is_ok : Bool
  pub content : A

-- An enabled binding with its policy: what `need_check` says of the action, and the methods, of
-- which a policy may lack one, and which may raise an exception (`none`).
pub record Binding {ℓ} (A : Type ℓ) : Type ℓ where
  pub last_op : Option ℕ
  pub cooldown : Option ℕ
  pub needs_check : Target → Bool
  pub method : Target → Option (CheckData A → Option (CheckData A))

-- `last_op and not is_older_than(last_op, cooldown)`
unfoldable pub cooldown_inprogress : ℕ → ℕ → Option ℕ → Bool
cooldown_inprogress now cooldown none = false
cooldown_inprogress now cooldown (some last_op) = not (ltb (last_op + cooldown) now)

-- `getattr(policy, 'cooldown', None)`: zero is falsy.
unfoldable pub is_cooling : ℕ → Option ℕ → Option ℕ → Bool
unfolding cooldown_inprogress
is_cooling now none last_op = false
is_cooling now (some zero) last_op = false
is_cooling now (some cooldown) last_op = cooldown_inprogress now cooldown last_op

-- What the body of the loop does with the data.
pub data Verdict {ℓ} (A : Type ℓ) : Type ℓ where
  goes_on stops : CheckData A → Verdict A
  breaks : Verdict A

module _ {ℓ} {A : Type ℓ} where
  -- The record of the last operation.
  unfoldable pub touch : Target → ℕ → Binding A → Binding A
  touch before now b = b
  touch after now b = record b { last_op = some now }

  -- `_check_result`, after the method.
  unfoldable pub check_result : Option (CheckData A) → Verdict A
  check_result none = breaks
  check_result (some d) = if d.is_ok then goes_on d else stops d

  unfoldable pub apply_method :
      Option (CheckData A → Option (CheckData A)) → CheckData A → Verdict A
  unfolding check_result
  apply_method none d = check_result (some d)
  apply_method (some method) d = check_result (method d)

  -- The body of the loop, for a binding whose last operation is recorded.
  unfoldable pub check_binding : Target → ℕ → Binding A → CheckData A → Verdict A
  unfolding is_cooling apply_method
  check_binding target now b d =
      if not (b.needs_check target)
      then goes_on d
      else if is_cooling now b.cooldown b.last_op
      then stops (record d { is_ok = false })
      else apply_method (b.method target) d

  -- The loop: the bindings after it, and the data.
  unfoldable pub check_bindings :
      Target → ℕ → List (Binding A) → CheckData A → List (Binding A) × Option (CheckData A)
  unfolding touch check_binding
  check_bindings target now [] d = ([], some d)
  check_bindings target now (b ∷ bs) d =
      let b' = touch target now b in
      elim (check_binding target now b' d) [
        | goes_on d' ↦ let (rest, result) = check_bindings target now bs d' in (b' ∷ rest, result)
        | stops d' ↦ (b' ∷ bs, some d')
        | breaks ↦ (b' ∷ bs, none)
      ]

  unfoldable pub policy_check :
      Target → ℕ → List (Binding A) → CheckData A → List (Binding A) × Option (CheckData A)
  unfolding check_bindings
  policy_check target now bindings d =
      check_bindings target now bindings (record d { is_ok = true })
