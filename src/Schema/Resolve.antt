-- ===== src/Schema/Resolve.antt =====
-- `resolve` and `get_default` of the schema types, and `validate` and `resolve_value` of `Spec`, of
-- senlin/common/schema.py.
pub mod Typed
pub mod Sound
use senlin.Prelude.{ℕ, Bool, true, false, Option, none, some, ◌==◌, if◌then◌else◌}
use senlin.Prelude.Int.{ℤ}
use senlin.Schema.{
  Value, null, bool, int, real, text, list, map, Values, no_values, and_value, Fields, no_fields,
  and_field, Schema, boolean, integer, string, number, any_map, list_of, map_of, Item, item, Items,
  no_items, and_item, Resolved, value, schema_error, type_error, ◌>>=◌, wrap, Python, field,
  is_item,
}

-- The number of an `int(value)` that ended, or the ESchema for a ValueError.
unfoldable pub int_or_error : Option ℤ → Resolved Value
int_or_error none = schema_error
int_or_error (some n) = value (int n)

unfoldable pub real_or_error : Option ℕ → Resolved Value
real_or_error none = schema_error
real_or_error (some r) = value (real r)

-- `for i in range(len(values))`
unfoldable pub each : (Value → Resolved Value) → Values → Resolved Values
each f no_values = value no_values
each f (and_value v vs) = do w ← f v; ws ← each f vs; value (and_value w ws)

-- `for key in self._data: if key not in self._schema: ...`
unfoldable pub no_unknown : Items → Fields → Fields → Resolved Fields
unfolding is_item
no_unknown items no_fields result = value result
no_unknown items (and_field k v rest) result =
    let later = no_unknown items rest result in if is_item k items then later else schema_error

-- `get_default` of a map: its default is not resolved.
unfoldable pub default_map : Value → Resolved Value
default_map (map fs) = value (map fs)
default_map v = schema_error

unfoldable pub is_null : Value → Bool
is_null null = true
is_null v = false

module _ (python : Python) where
  -- `to_schema_type` of the types that hold no others. A Boolean is an integer and a number too.
  unfoldable pub to_boolean : Value → Resolved Value
  to_boolean v = elim (python.to_bool v) [ none ↦ schema_error | some b ↦ value (bool b) ]

  unfoldable pub to_integer : Value → Resolved Value
  unfolding int_or_error
  to_integer (int n) = value (int n)
  to_integer (bool b) = value (bool b)
  to_integer v = python.to_int v >>= int_or_error

  unfoldable pub float_of : Value → Option ℤ → Resolved Value
  unfolding real_or_error
  float_of v (some n) = value (int n)
  float_of v none = python.to_float v >>= real_or_error

  unfoldable pub to_number : Value → Resolved Value
  unfolding float_of
  to_number (int n) = value (int n)
  to_number (bool b) = value (bool b)
  to_number (real r) = value (real r)
  to_number v = python.to_int v >>= float_of v

  -- A text is a sequence as well.
  unfoldable pub sequence : Value → Option Values
  sequence (list vs) = some vs
  sequence (text t) = some (python.characters t)
  sequence v = none

  -- The mapping that a map resolves: a text is read as JSON.
  unfoldable pub mapping : Value → Option Fields
  mapping (map fs) = some fs
  mapping (text t) = elim (python.loads t) [
    | some v ↦ elim v [ map fs ↦ some fs | _ ↦ none ]
    | none ↦ none
  ]
  mapping v = none

  -- The ends of `resolve` of a list and of a map.
  unfoldable pub resolve_list : (Value → Resolved Value) → Value → Resolved Value
  unfolding sequence each
  resolve_list f v = elim (sequence v) [
    | none ↦ type_error
    | some vs ↦ each f vs >>= (λ (ws : Values). value (list ws))
  ]

  unfoldable pub resolve_map : (Fields → Resolved Fields) → Items → Value → Resolved Value
  unfolding mapping no_unknown wrap
  resolve_map f items v = elim (mapping v) [
    | none ↦ schema_error
    | some fs ↦
        wrap (f fs) >>= (λ (r : Fields). no_unknown items fs r) >>= (λ (r : Fields). value (map r))
  ]

  unfoldable pub resolve_any_map : Value → Resolved Value
  unfolding mapping
  resolve_any_map v = elim (mapping v) [ none ↦ schema_error | some fs ↦ value (map fs) ]

  unfoldable mutual
    unfolding to_boolean to_integer to_number resolve_list resolve_map resolve_any_map default_map
        is_null field

    pub resolve : Schema → Value → Resolved Value
    resolve boolean v = to_boolean v
    resolve integer v = to_integer v
    resolve string v = value (text (python.to_text v))
    resolve number v = to_number v
    resolve any_map v = resolve_any_map v
    resolve (list_of it) v = resolve_list (resolve_item it) v
    resolve (map_of items) v = resolve_map (resolve_items items) items v

    pub resolve_item : Item → Value → Resolved Value
    resolve_item (item s default required allowed min_version max_version) v = resolve s v

    -- `get_default`
    pub get_default : Schema → Value → Resolved Value
    get_default any_map default = default_map default
    get_default (map_of items) default = default_map default
    get_default boolean default = to_boolean default
    get_default integer default = to_integer default
    get_default string default = value (text (python.to_text default))
    get_default number default = to_number default
    get_default (list_of it) default = resolve_list (resolve_item it) default

    -- `resolve_value`, of an item of the schema
    pub resolve_value : Item → Option Value → Resolved Value
    resolve_value (item s default required allowed min_version max_version) (some raw) =
        resolve s raw
    resolve_value (item s default required allowed min_version max_version) none =
        let given = get_default s default in
        if is_null default then (if required then schema_error else value null) else given

    -- The value of each item, in the order of the schema.
    pub resolve_items : Items → Fields → Resolved Fields
    resolve_items no_items fs = value no_fields
    resolve_items (and_item k it rest) fs = do
      v ← resolve_value it (field k fs)
      others ← resolve_items rest fs
      value (and_field k v others)
