-- ===== src/Schema/Check/Unconstrained.antt =====
-- A specification is accepted, or not, whatever its constraints say.
use mathlib.Core.Path.{fun_ext}
use senlin.Prelude.{ℕ, ◌≡◌, refl, ap, ◌∙◌, Option, none, some}
use senlin.Schema.{
  Value, Fields, no_fields, and_field, Schema, boolean, integer, string, number, any_map, list_of,
  map_of, Item, item, Items, no_items, and_item, map, schema_error, Resolved, value, ◌>>=◌, wrap,
  Python, field, is_item,
}
use senlin.Schema.Resolve.{
  mapping, no_unknown, resolve_list, resolve_map, resolve, resolve_item, get_default, resolve_value,
  resolve_items,
}
use senlin.Schema.Check.{spec_item, validate_version, check_items, check_keys, validate_spec}

-- The schema without its constraints.
unfoldable mutual
  pub free : Schema → Schema
  free (list_of it) = list_of (free_item it)
  free (map_of items) = map_of (free_items items)
  free boolean = boolean
  free integer = integer
  free string = string
  free number = number
  free any_map = any_map

  pub free_item : Item → Item
  free_item (item s d r allowed low high) = item (free s) d r none low high

  pub free_items : Items → Items
  free_items no_items = no_items
  free_items (and_item k it rest) = and_item k (free_item it) (free_items rest)

is_item-free_items : (k : ℕ) (items : Items) → is_item k (free_items items) ≡ is_item k items
unfolding is_item free
is_item-free_items k no_items = refl
is_item-free_items k (and_item j it rest) = rw (is_item-free_items k rest) refl

no_unknown-free_items :
    (items : Items) (fs r : Fields) → no_unknown (free_items items) fs r ≡ no_unknown items fs r
unfolding no_unknown
no_unknown-free_items items no_fields r = refl
no_unknown-free_items items (and_field k v rest) r =
    rw (is_item-free_items k items, no_unknown-free_items items rest r) refl

check_keys-free_items :
    (items : Items) (fs : Fields) → check_keys (free_items items) fs ≡ check_keys items fs
unfolding check_keys
check_keys-free_items items no_fields = refl
check_keys-free_items items (and_field k v rest) =
    rw (is_item-free_items k items, check_keys-free_items items rest) refl

module _ (python : Python) where
  resolve_map-free_items :
      (f g : Fields → Resolved Fields) (items : Items) (v : Value)
      → f ≡ g
      → resolve_map python f (free_items items) v ≡ resolve_map python g items v
  unfolding resolve_map
  resolve_map-free_items f g items v e =
      ap (ends (no_unknown (free_items items))) e
      ∙ ap (λ (k : Fields → Fields → Resolved Fields). ends k g)
          (fun_ext (λ (fs : Fields). fun_ext (λ (r : Fields). no_unknown-free_items items fs r)))
    where
      ends : (Fields → Fields → Resolved Fields) → (Fields → Resolved Fields) → Resolved Value
      ends known h = elim (mapping python v) [
        | none ↦ schema_error
        | some fs ↦ wrap (h fs) >>= (λ (r : Fields). known fs r) >>= (λ (r : Fields). value (map r))
      ]

  mutual
    unfolding resolve free

    resolve-free : (s : Schema) (v : Value) → resolve python (free s) v ≡ resolve python s v
    resolve-free boolean v = refl
    resolve-free integer v = refl
    resolve-free string v = refl
    resolve-free number v = refl
    resolve-free any_map v = refl
    resolve-free (list_of it) v =
        ap (λ f. resolve_list python f v) (fun_ext (λ (x : Value). resolve_item-free it x))
    resolve-free (map_of items) v =
        resolve_map-free_items (resolve_items python (free_items items))
          (resolve_items python items) items v
          (fun_ext (λ (fs : Fields). resolve_items-free items fs))

    resolve_item-free :
        (it : Item) (v : Value) → resolve_item python (free_item it) v ≡ resolve_item python it v
    resolve_item-free (item s d r allowed low high) v = resolve-free s v

    get_default-free :
        (s : Schema) (d : Value) → get_default python (free s) d ≡ get_default python s d
    get_default-free boolean d = refl
    get_default-free integer d = refl
    get_default-free string d = refl
    get_default-free number d = refl
    get_default-free any_map d = refl
    get_default-free (map_of items) d = refl
    get_default-free (list_of it) d =
        ap (λ f. resolve_list python f d) (fun_ext (λ (x : Value). resolve_item-free it x))

    resolve_value-free :
        (it : Item) (o : Option Value)
        → resolve_value python (free_item it) o ≡ resolve_value python it o
    resolve_value-free (item s d r allowed low high) (some v) = resolve-free s v
    resolve_value-free (item s d r allowed low high) none = rw (get_default-free s d) refl

    resolve_items-free :
        (items : Items) (fs : Fields)
        → resolve_items python (free_items items) fs ≡ resolve_items python items fs
    resolve_items-free no_items fs = refl
    resolve_items-free (and_item k it rest) fs =
        rw (resolve_value-free it (field k fs), resolve_items-free rest fs) refl

  spec_item-free :
      (it : Item) (o : Option Value) → spec_item python (free_item it) o ≡ spec_item python it o
  unfolding spec_item
  spec_item-free it o = ap (λ m. m >>= (λ (v : Value). value tt)) (resolve_value-free it o)

  validate_version-free :
      (it : Item) (version : Option ℕ)
      → validate_version (free_item it) version ≡ validate_version it version
  unfolding validate_version free
  validate_version-free (item s d r allowed low high) none = refl
  validate_version-free (item s d r allowed low high) (some version) = refl

  check_items-free_items :
      (items : Items) (fs : Fields) (version : Option ℕ)
      → check_items (spec_item python) (free_items items) fs version
        ≡ check_items (spec_item python) items fs version
  unfolding check_items free_items
  check_items-free_items no_items fs version = refl
  check_items-free_items (and_item k it rest) fs version =
      rw
        (
          spec_item-free it (field k fs),
          validate_version-free it version,
          check_items-free_items rest fs version,
        )
        refl

-- A specification is accepted by a schema exactly when it is accepted by the schema without its
-- constraints, at every depth: a value that the constraints do not allow is not found.
pub validate_spec-free_items :
    (python : Python) (items : Items) (fs : Fields) (version : Option ℕ)
    → validate_spec python (free_items items) fs version ≡ validate_spec python items fs version
unfolding validate_spec
validate_spec-free_items python items fs version =
    rw (check_items-free_items python items fs version, check_keys-free_items items fs) refl
