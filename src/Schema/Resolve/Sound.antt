-- ===== src/Schema/Resolve/Sound.antt =====
-- What `resolve` answers with has the type of the schema.
use senlin.Prelude.{ℕ, ◌≡◌, refl, sym, ◌∙◌, subst, Bool, true, false, Option, none, some, List}
use senlin.Schema.{
  Value, null, bool, int, real, text, list, map, Values, Fields, Schema, boolean, integer, string,
  number, any_map, list_of, map_of, Item, item, Items, no_items, and_item, Resolved, value, ◌>>=◌,
  wrap, Python, field,
}
use senlin.Schema.Resolve.{
  each, no_unknown, default_map, is_null, sequence, mapping, resolve_list, resolve_map,
  resolve_any_map, resolve, resolve_item, get_default, resolve_value, resolve_items,
}
use senlin.Schema.Resolve.Typed.{
  HasType, is_string, is_any_map, is_list, is_map, IsOf, of_item, Fills, filled, left_out,
  as_written, Matches, no_match, match, value-eq, schema_error-value, type_error-value, wrap-value,
  >>=-eq-value, each-AllOf, no_unknown-value, HasType-at, to_boolean-HasType, to_integer-HasType,
  to_number-HasType,
}

module _ (python : Python) where
  resolve_any_map-HasType :
      (v : Value) (o : Option Fields) {w : Value}
      → mapping python v ≡ o
      → resolve_any_map python v ≡ value w
      → HasType any_map w
  unfolding resolve_any_map
  resolve_any_map-HasType v none at e =
      absurd (schema_error-value (sym (rw (resolve_any_map, at) refl) ∙ e))
  resolve_any_map-HasType v (some fs) at e =
      HasType-at (is_any_map fs) (sym (rw (resolve_any_map, at) refl) ∙ e)

  resolve_list-HasType :
      (it : Item) (f : Value → Resolved Value) (v : Value) (o : Option Values) {w : Value}
      → ((v w : Value) → f v ≡ value w → IsOf it w)
      → sequence python v ≡ o
      → resolve_list python f v ≡ value w
      → HasType (list_of it) w
  unfolding resolve_list
  resolve_list-HasType it f v none h at e =
      absurd (type_error-value (sym (rw (resolve_list, at) refl) ∙ e))
  resolve_list-HasType it f v (some vs) {w} h at e =
      let start : resolve_list python f v ≡ (each f vs >>= (λ (ws : Values). value (list ws))) =
        rw (resolve_list, at) refl in
      let (ws, all, e1) = >>=-eq-value (each f vs) _ (sym start ∙ e) in
      HasType-at (is_list (each-AllOf it f vs h all)) e1

  resolve_map-HasType :
      (items : Items) (f : Fields → Resolved Fields) (v : Value) (o : Option Fields) {w : Value}
      → ((fs r : Fields) → f fs ≡ value r → Matches items r)
      → mapping python v ≡ o
      → resolve_map python f items v ≡ value w
      → HasType (map_of items) w
  unfolding resolve_map
  resolve_map-HasType items f v none h at e =
      absurd (schema_error-value (sym (rw (resolve_map, at) refl) ∙ e))
  resolve_map-HasType items f v (some fs) {w} h at e =
      let start : resolve_map python f items v ≡ (
          wrap (f fs)
          >>= (λ (r : Fields). no_unknown items fs r)
          >>= (λ (r : Fields). value (map r))) =
        rw (resolve_map, at) refl in
      let (r, checked, e1) =
        >>=-eq-value (wrap (f fs) >>= (λ (x : Fields). no_unknown items fs x)) _ (sym start ∙ e) in
      let (r', made, e2) = >>=-eq-value (wrap (f fs)) _ checked in
      let matched = h fs r' (wrap-value (f fs) made) in
      HasType-at (is_map (subst (λ x. Matches items x) (no_unknown-value items fs r' e2) matched))
        e1

  default_map-Fills :
      (s : Schema) (d : Value) (r : Bool) (allowed : Option (List Value)) (x y : Option ℕ)
      {w : Value}
      → default_map d ≡ value w
      → Fills (item s d r allowed x y) w
  unfolding default_map
  default_map-Fills s (map fs) r allowed x y e =
      subst (λ v. Fills (item s (map fs) r allowed x y) v) (value-eq e) as_written
  default_map-Fills s null r allowed x y e = absurd (schema_error-value e)
  default_map-Fills s (bool b) r allowed x y e = absurd (schema_error-value e)
  default_map-Fills s (int n) r allowed x y e = absurd (schema_error-value e)
  default_map-Fills s (real n) r allowed x y e = absurd (schema_error-value e)
  default_map-Fills s (text t) r allowed x y e = absurd (schema_error-value e)
  default_map-Fills s (list vs) r allowed x y e = absurd (schema_error-value e)

  -- The value of an item that the data leave out.
  left_out-Fills :
      (s : Schema) (d : Value) (r : Bool) (allowed : Option (List Value)) (x y : Option ℕ)
      {w : Value}
      → (get_default python s d ≡ value w → Fills (item s d r allowed x y) w)
      → resolve_value python (item s d r allowed x y) none ≡ value w
      → Fills (item s d r allowed x y) w
  unfolding resolve_value is_null
  left_out-Fills s null true allowed x y h e = absurd (schema_error-value e)
  left_out-Fills s null false allowed x y h e =
      subst (λ v. Fills (item s null false allowed x y) v) (value-eq e) left_out
  left_out-Fills s (map fs) r allowed x y h e = h e
  left_out-Fills s (bool b) r allowed x y h e = h e
  left_out-Fills s (int n) r allowed x y h e = h e
  left_out-Fills s (real n) r allowed x y h e = h e
  left_out-Fills s (text t) r allowed x y h e = h e
  left_out-Fills s (list vs) r allowed x y h e = h e

  mutual
    unfolding resolve

    schema-HasType :
        (s : Schema) (v : Value) {w : Value} → resolve python s v ≡ value w → HasType s w
    schema-HasType boolean v e = to_boolean-HasType python v e
    schema-HasType integer v e = to_integer-HasType python v e
    schema-HasType string v e = HasType-at (is_string (python.to_text v)) e
    schema-HasType number v e = to_number-HasType python v e
    schema-HasType any_map v e = resolve_any_map-HasType v (mapping python v) refl e
    schema-HasType (list_of it) v e =
        resolve_list-HasType it (resolve_item python it) v (sequence python v)
          (λ (x y : Value) (k : resolve_item python it x ≡ value y). resolve_item-IsOf it x k) refl
          e
    schema-HasType (map_of items) v e =
        resolve_map-HasType items (resolve_items python items) v (mapping python v)
          (λ (fs r : Fields) (k : resolve_items python items fs ≡ value r).
            resolve_items-Matches items fs k)
          refl e

    resolve_item-IsOf :
        (it : Item) (v : Value) {w : Value} → resolve_item python it v ≡ value w → IsOf it w
    resolve_item-IsOf (item s d r allowed x y) v e = of_item (schema-HasType s v e)

    get_default-Fills :
        (s : Schema) (d : Value) (r : Bool) (allowed : Option (List Value)) (x y : Option ℕ)
        {w : Value}
        → get_default python s d ≡ value w
        → Fills (item s d r allowed x y) w
    get_default-Fills any_map d r allowed x y e = default_map-Fills any_map d r allowed x y e
    get_default-Fills (map_of items) d r allowed x y e =
        default_map-Fills (map_of items) d r allowed x y e
    get_default-Fills boolean d r allowed x y e = filled (to_boolean-HasType python d e)
    get_default-Fills integer d r allowed x y e = filled (to_integer-HasType python d e)
    get_default-Fills string d r allowed x y e =
        filled (HasType-at (is_string (python.to_text d)) e)
    get_default-Fills number d r allowed x y e = filled (to_number-HasType python d e)
    get_default-Fills (list_of it) d r allowed x y e = filled (
        resolve_list-HasType it (resolve_item python it) d (sequence python d)
          (λ (v w : Value) (k : resolve_item python it v ≡ value w). resolve_item-IsOf it v k) refl
          e)

    resolve_value-Fills :
        (it : Item) (o : Option Value) {w : Value}
        → resolve_value python it o ≡ value w
        → Fills it w
    resolve_value-Fills (item s d r allowed x y) (some v) e = filled (schema-HasType s v e)
    resolve_value-Fills (item s d r allowed x y) none e =
        left_out-Fills s d r allowed x y (get_default-Fills s d r allowed x y) e

    resolve_items-Matches :
        (items : Items) (fs : Fields) {r : Fields}
        → resolve_items python items fs ≡ value r
        → Matches items r
    resolve_items-Matches no_items fs e = subst (λ x. Matches no_items x) (value-eq e) no_match
    resolve_items-Matches (and_item k it rest) fs e =
        let (v, first, e1) = >>=-eq-value (resolve_value python it (field k fs)) _ e in
        let (others, later, e2) = >>=-eq-value (resolve_items python rest fs) _ e1 in
        subst (λ x. Matches (and_item k it rest) x) (value-eq e2)
          (match (resolve_value-Fills it (field k fs) first) (resolve_items-Matches rest fs later))

-- Whatever value is resolved by a schema, what it is resolved to has the type of the schema: a map
-- has the items of its schema, in their order, each with a value of its type, or null where it may
-- be left out and has no default, or a default that is itself a map, as it is written.
pub resolve-HasType :
    (python : Python) (s : Schema) (v w : Value) → resolve python s v ≡ value w → HasType s w
resolve-HasType python s v w e = schema-HasType python s v e
