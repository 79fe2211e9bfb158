-- ===== src/Schema.antt =====
-- The values and the schemas of senlin/common/schema.py. Texts and keys are numbers, and a float is
-- its code; versions are numbers in the order in which the code compares their texts.
pub mod Resolve
pub mod Check
use senlin.Prelude.{ℕ, Bool, true, false, Option, none, some, List, [], ◌∷◌, ◌==◌, if◌then◌else◌}
use senlin.Prelude.Int.{ℤ}

-- A value of a specification, as it is read from YAML or JSON.
mutual
  pub data Value : Type 0 where
    null : Value
    bool : Bool → Value
    int : ℤ → Value
    real text : ℕ → Value
    list : Values → Value
    map : Fields → Value

  pub data Values : Type 0 where
    no_values : Values
    and_value : Value → Values → Values

  pub data Fields : Type 0 where
    no_fields : Fields
    and_field : ℕ → Value → Fields → Fields

-- An item of a schema: its type, `default` (null where there is none), `required`, the values that
-- its constraints allow, if it has one, and `min_version` and `max_version`. A list has a schema for
-- its elements; a map may have none.
mutual
  pub data Schema : Type 0 where
    boolean integer string number any_map : Schema
    list_of : Item → Schema
    map_of : Items → Schema

  pub data Item : Type 0 where
    item : Schema → Value → Bool → Option (List Value) → Option ℕ → Option ℕ → Item

  pub data Items : Type 0 where
    no_items : Items
    and_item : ℕ → Item → Items → Items

-- A result, `ESchema`, a `TypeError`, or another exception.
pub data Resolved {ℓ} (A : Type ℓ) : Type ℓ where
  schema_error type_error other_error : Resolved A
  value : A → Resolved A

infixl 5 ◌>>=◌
abbrev pub ◌>>=◌ {ℓ κ} : {A : Type ℓ} {B : Type κ} → Resolved A → (A → Resolved B) → Resolved B
schema_error >>= f = schema_error
type_error >>= f = type_error
other_error >>= f = other_error
value a >>= f = f a

-- `except (TypeError, ValueError) as err: raise exc.ESchema(...)`
unfoldable pub wrap {ℓ} : {A : Type ℓ} → Resolved A → Resolved A
wrap (value a) = value a
wrap schema_error = schema_error
wrap type_error = schema_error
wrap other_error = other_error

-- What the code takes from the language and from libraries: `bool_from_string(str(v), strict=True)`,
-- `int(v)` (where the answer is `none` it is a ValueError), `float(v)`, `str(v)`, `jsonutils.loads`
-- of a text, and the characters of a text.
pub record Python : Type 0 where
  pub to_bool : Value → Option Bool
  pub to_int : Value → Resolved (Option ℤ)
  pub to_float : Value → Resolved (Option ℕ)
  pub to_text : Value → ℕ
  pub loads : ℕ → Option Value
  pub characters : ℕ → Values

-- `data.get(key)`
unfoldable pub field : ℕ → Fields → Option Value
field key no_fields = none
field key (and_field k v rest) = if k == key then some v else field key rest

-- `key in schema`
unfoldable pub is_item : ℕ → Items → Bool
is_item key no_items = false
is_item key (and_item k it rest) = if k == key then true else is_item key rest
