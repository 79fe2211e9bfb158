-- ===== src/Schema/Check.antt =====
-- `validate` of the schema types, of `Operation` and of `Spec`, and `_validate_version`, of
-- senlin/common/schema.py, with `AllowedValues` of senlin/common/constraints.py.
pub mod Accepted
pub mod Unconstrained
use senlin.Prelude.{
  ℕ, Bool, true, false, ◌&&◌, Option, none, some, List, [], ◌∷◌, ◌==◌, ltb, if◌then◌else◌,
}
use senlin.Prelude.Int.{ℤ, pos, negsuc}
use senlin.Schema.{
  Value, null, bool, int, real, text, list, map, Values, no_values, and_value, Fields, no_fields,
  and_field, Schema, boolean, integer, string, number, any_map, list_of, map_of, Item, item, Items,
  no_items, and_item, Resolved, value, schema_error, type_error, other_error, ◌>>=◌, wrap, Python,
  field, is_item,
}
use senlin.Schema.Resolve.{to_boolean, to_integer, to_number, sequence, resolve, resolve_value}

-- What a validation ends with.
abbrev pub Validation : Type 0
Validation = Resolved (Unit {0})

-- `bool` and `int` as one kind of number.
unfoldable pub as_int : Value → Option ℤ
as_int (int n) = some n
as_int (bool true) = some (pos 1)
as_int (bool false) = some (pos 0)
as_int v = none

unfoldable pub same_int : ℤ → ℤ → Bool
same_int (pos m) (pos n) = m == n
same_int (negsuc m) (negsuc n) = m == n
same_int m n = false

-- `==` on values that are no lists and no maps; a float equals only its own code.
unfoldable pub same : Value → Value → Bool
unfolding as_int same_int
same null null = true
same (text s) (text t) = s == t
same (real x) (real y) = x == y
same v w = elim (as_int v) [
  | none ↦ false
  | some m ↦ elim (as_int w) [ none ↦ false | some n ↦ same_int m n ]
]

unfoldable pub is_among : Value → List Value → Bool
unfolding same
is_among v [] = false
is_among v (w ∷ ws) = let later = is_among v ws in if same v w then true else later

-- `tuple(schema.to_schema_type(v) for v in self.allowed)`
unfoldable pub convert_all : (Value → Resolved Value) → List Value → Resolved (List Value)
convert_all convert [] = value []
convert_all convert (v ∷ vs) = do w ← convert v; ws ← convert_all convert vs; value (w ∷ ws)

-- `validate_constraints` of a value that is no list, with the conversion of its schema.
unfoldable pub check_allowed : (Value → Resolved Value) → Option (List Value) → Value → Validation
unfolding convert_all is_among
check_allowed convert none v = value tt
check_allowed convert (some allowed) v = do
  ws ← convert_all convert allowed
  w ← convert v
  (if is_among w ws then value tt else schema_error)

-- `for v in value: ...`
unfoldable pub check_each : (Value → Validation) → Values → Validation
check_each f no_values = value tt
check_each f (and_value v vs) = do done ← f v; check_each f vs

-- `value.get(key)`
unfoldable pub field_or_null : ℕ → Fields → Value
unfolding field
field_or_null key fs = elim (field key fs) [ none ↦ null | some v ↦ v ]

module _ (python : Python) where
  -- `if not isinstance(value, bool): self.resolve(value)`
  unfoldable pub validate_boolean : Value → Validation
  validate_boolean (bool b) = value tt
  validate_boolean v = to_boolean python v >>= (λ (w : Value). value tt)

  -- The value is converted, and then tested by the constraints.
  unfoldable pub validate_converted :
      (Value → Resolved Value) → Option (List Value) → Value → Validation
  unfolding check_allowed
  validate_converted convert allowed v =
      convert v >>= (λ (w : Value). check_allowed convert allowed w)

  unfoldable pub validate_string : Option (List Value) → Value → Validation
  unfolding check_allowed
  validate_string allowed (text t) =
      check_allowed (λ (v : Value). value (text (python.to_text v))) allowed (text t)
  validate_string allowed v = schema_error

  unfoldable pub validate_list : (Value → Validation) → Value → Validation
  unfolding check_each sequence
  validate_list f v = elim (sequence python v) [ none ↦ schema_error | some vs ↦ check_each f vs ]

  unfoldable pub validate_map : (Fields → Validation) → Value → Validation
  validate_map f (map fs) = f fs
  validate_map f v = schema_error

  -- A map without a schema has no items to loop over.
  unfoldable mutual
    unfolding validate_boolean validate_converted validate_string validate_list validate_map
        field_or_null

    pub validate_value : Schema → Option (List Value) → Value → Validation
    validate_value boolean allowed v = validate_boolean v
    validate_value integer allowed v = validate_converted (to_integer python) allowed v
    validate_value number allowed v = validate_converted (to_number python) allowed v
    validate_value string allowed v = validate_string allowed v
    validate_value any_map allowed v = validate_map (λ (fs : Fields). other_error) v
    validate_value (list_of it) allowed v = validate_list (validate_item it) v
    validate_value (map_of items) allowed v = validate_map (validate_items items) v

    pub validate_item : Item → Value → Validation
    validate_item (item s default required allowed min_version max_version) v =
        validate_value s allowed v

    pub validate_items : Items → Fields → Validation
    validate_items no_items fs = value tt
    validate_items (and_item k it rest) fs = do
      done ← validate_item it (field_or_null k fs)
      validate_items rest fs

  -- `Operation.validate`, of one parameter
  unfoldable pub operation_item : Item → Option Value → Validation
  unfolding validate_value
  operation_item it (some v) = validate_item it v
  operation_item (item s default required allowed min_version max_version) none =
      if required then schema_error else value tt

  -- `Spec.validate`, of one item
  unfoldable pub spec_item : Item → Option Value → Validation
  unfolding resolve_value
  spec_item it o = resolve_value python it o >>= (λ (v : Value). value tt)

-- `self.min_version and self.min_version > version`, and the same of `max_version`
unfoldable pub is_too_early : Option ℕ → ℕ → Bool
is_too_early none version = false
is_too_early (some m) version = ltb version m

unfoldable pub is_too_late : Option ℕ → ℕ → Bool
is_too_late none version = false
is_too_late (some m) version = ltb m version

unfoldable pub validate_version : Item → Option ℕ → Validation
unfolding is_too_early is_too_late
validate_version (item s default required allowed min_version max_version) none = value tt
validate_version (item s default required allowed min_version max_version) (some version) =
    if is_too_early min_version version
    then schema_error
    else if is_too_late max_version version
    then schema_error
    else value tt

-- The loop over the items, which `Operation` and `Spec` make with their own tests.
unfoldable pub check_items :
    (Item → Option Value → Validation) → Items → Fields → Option ℕ → Validation
unfolding validate_version wrap field
check_items test no_items fs version = value tt
check_items test (and_item k it rest) fs version = do
  done ← wrap (test it (field k fs) >>= (λ (u : Unit {0}). validate_version it version))
  check_items test rest fs version

-- The loop over the data.
unfoldable pub check_keys : Items → Fields → Validation
unfolding is_item
check_keys items no_fields = value tt
check_keys items (and_field k v rest) =
    let later = check_keys items rest in if is_item k items then later else schema_error

unfoldable pub validate_operation : Python → Items → Fields → Option ℕ → Validation
unfolding operation_item check_items check_keys
validate_operation python items fs version = do
  done ← check_keys items fs
  check_items (operation_item python) items fs version

unfoldable pub validate_spec : Python → Items → Fields → Option ℕ → Validation
unfolding spec_item check_items check_keys
validate_spec python items fs version = do
  done ← check_items (spec_item python) items fs version
  check_keys items fs
