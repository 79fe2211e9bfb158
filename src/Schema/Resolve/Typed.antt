-- ===== src/Schema/Resolve/Typed.antt =====
-- What a resolved value looks like, and which specifications are resolved.
use senlin.Prelude.{
  ℕ, ◌≡◌, refl, subst, inl, inr, Bool, false, Option, none, some, List, Bool-cases,
}
use senlin.Prelude.Int.{ℤ}
use senlin.Schema.{
  Value, null, bool, int, real, text, list, map, Values, no_values, and_value, Fields, no_fields,
  and_field, Schema, boolean, integer, string, number, any_map, list_of, map_of, Item, item, Items,
  no_items, and_item, Resolved, value, schema_error, type_error, other_error, ◌>>=◌, wrap, Python,
  is_item,
}
use senlin.Schema.Resolve.{
  int_or_error, real_or_error, each, no_unknown, to_boolean, to_integer, float_of, to_number,
}

-- The values of a schema. A map has the items of its schema, in their order, each with a value of
-- its type, or with null where it may be left out and has no default, or, where it is a map itself,
-- with its default as it is written.
mutual
  pub data HasType : Schema → Value → Type 0 where
    is_boolean : (b : Bool) → HasType boolean (bool b)
    is_integer : (n : ℤ) → HasType integer (int n)
    boolean_integer : (b : Bool) → HasType integer (bool b)
    is_string : (t : ℕ) → HasType string (text t)
    integer_number : (n : ℤ) → HasType number (int n)
    boolean_number : (b : Bool) → HasType number (bool b)
    is_number : (r : ℕ) → HasType number (real r)
    is_any_map : (fs : Fields) → HasType any_map (map fs)
    is_list : {it : Item} {vs : Values} → AllOf it vs → HasType (list_of it) (list vs)
    is_map : {items : Items} {fs : Fields} → Matches items fs → HasType (map_of items) (map fs)

  pub data AllOf : Item → Values → Type 0 where
    all_of_none : {it : Item} → AllOf it no_values
    all_of_more :
        {it : Item} {v : Value} {vs : Values} → IsOf it v → AllOf it vs → AllOf it (and_value v vs)

  pub data IsOf : Item → Value → Type 0 where
    of_item :
        {s : Schema} {d : Value} {r : Bool} {allowed : Option (List Value)} {x y : Option ℕ}
        {v : Value}
        → HasType s v
        → IsOf (item s d r allowed x y) v

  pub data Fills : Item → Value → Type 0 where
    filled :
        {s : Schema} {d : Value} {r : Bool} {allowed : Option (List Value)} {x y : Option ℕ}
        {v : Value}
        → HasType s v
        → Fills (item s d r allowed x y) v
    left_out :
        {s : Schema} {allowed : Option (List Value)} {x y : Option ℕ}
        → Fills (item s null false allowed x y) null
    as_written :
        {s : Schema} {fs : Fields} {r : Bool} {allowed : Option (List Value)} {x y : Option ℕ}
        → Fills (item s (map fs) r allowed x y) (map fs)

  pub data Matches : Items → Fields → Type 0 where
    no_match : Matches no_items no_fields
    match :
        {k : ℕ} {it : Item} {rest : Items} {v : Value} {fs : Fields}
        → Fills it v
        → Matches rest fs
        → Matches (and_item k it rest) (and_field k v fs)

module _ {ℓ} {A : Type ℓ} where
  pub value-eq : {a b : A} → value a ≡ value b → a ≡ b
  value-eq e = cc

  pub schema_error-value : {a : A} → ◌≡◌ {A = Resolved A} schema_error (value a) → ⊥
  schema_error-value e = cc

  pub type_error-value : {a : A} → ◌≡◌ {A = Resolved A} type_error (value a) → ⊥
  type_error-value e = cc

  pub other_error-value : {a : A} → ◌≡◌ {A = Resolved A} other_error (value a) → ⊥
  other_error-value e = cc

  pub wrap-value : (m : Resolved A) {a : A} → wrap m ≡ value a → m ≡ value a
  unfolding wrap
  wrap-value (value b) e = e
  wrap-value schema_error e = e
  wrap-value type_error e = absurd (schema_error-value e)
  wrap-value other_error e = e

pub >>=-eq-value {ℓ κ} :
    {A : Type ℓ} {B : Type κ} (m : Resolved A) (f : A → Resolved B) {b : B}
    → (m >>= f) ≡ value b
    → (a : A) × (m ≡ value a) × (f a ≡ value b)
>>=-eq-value (value a) f e = (a, refl, e)
>>=-eq-value schema_error f e = absurd (schema_error-value e)
>>=-eq-value type_error f e = absurd (type_error-value e)
>>=-eq-value other_error f e = absurd (other_error-value e)

pub each-AllOf :
    (it : Item) (f : Value → Resolved Value) (vs : Values) {ws : Values}
    → ((v w : Value) → f v ≡ value w → IsOf it w)
    → each f vs ≡ value ws
    → AllOf it ws
unfolding each
each-AllOf it f no_values {ws} h e = subst (λ r. AllOf it r) (value-eq e) all_of_none
each-AllOf it f (and_value v vs) {ws} h e =
    let (w, first, e1) = >>=-eq-value (f v) _ e in
    let (rest, later, e2) = >>=-eq-value (each f vs) _ e1 in
    subst (λ r. AllOf it r) (value-eq e2) (all_of_more (h v w first) (each-AllOf it f vs h later))

pub no_unknown-value :
    (items : Items) (fs r : Fields) {w : Fields} → no_unknown items fs r ≡ value w → r ≡ w
unfolding no_unknown
no_unknown-value items no_fields r e = value-eq e
no_unknown-value items (and_field k v fs) r e = elim (Bool-cases (is_item k items)) [
  | inl p ↦ no_unknown-value items fs r (rw p at e)
  | inr p ↦ absurd (schema_error-value (rw p at e))
]

pub HasType-at : {s : Schema} {v w : Value} → HasType s v → value v ≡ value w → HasType s w
HasType-at {s} h e = subst (λ x. HasType s x) (value-eq e) h

int_or_error-HasType : (o : Option ℤ) {w : Value} → int_or_error o ≡ value w → HasType integer w
unfolding int_or_error
int_or_error-HasType none e = absurd (schema_error-value e)
int_or_error-HasType (some n) e = HasType-at (is_integer n) e

real_or_error-HasType : (o : Option ℕ) {w : Value} → real_or_error o ≡ value w → HasType number w
unfolding real_or_error
real_or_error-HasType none e = absurd (schema_error-value e)
real_or_error-HasType (some r) e = HasType-at (is_number r) e

bool_or_error-HasType :
    (o : Option Bool) {w : Value}
    → (elim o as (λ x. Resolved Value) [ none ↦ schema_error | some b ↦ value (bool b) ]) ≡ value w
    → HasType boolean w
bool_or_error-HasType none e = absurd (schema_error-value e)
bool_or_error-HasType (some b) e = HasType-at (is_boolean b) e

module _ (python : Python) where
  pub to_boolean-HasType :
      (v : Value) {w : Value} → to_boolean python v ≡ value w → HasType boolean w
  unfolding to_boolean
  to_boolean-HasType v e = bool_or_error-HasType (python.to_bool v) e

  read_int-HasType :
      (v : Value) {w : Value} → (python.to_int v >>= int_or_error) ≡ value w → HasType integer w
  read_int-HasType v e =
      let (o, read, e1) = >>=-eq-value (python.to_int v) int_or_error e in int_or_error-HasType o e1

  pub to_integer-HasType :
      (v : Value) {w : Value} → to_integer python v ≡ value w → HasType integer w
  unfolding to_integer
  to_integer-HasType (int n) e = HasType-at (is_integer n) e
  to_integer-HasType (bool b) e = HasType-at (boolean_integer b) e
  to_integer-HasType null e = read_int-HasType null e
  to_integer-HasType (real r) e = read_int-HasType (real r) e
  to_integer-HasType (text t) e = read_int-HasType (text t) e
  to_integer-HasType (list vs) e = read_int-HasType (list vs) e
  to_integer-HasType (map fs) e = read_int-HasType (map fs) e

  float_of-HasType :
      (v : Value) (o : Option ℤ) {w : Value} → float_of python v o ≡ value w → HasType number w
  unfolding float_of
  float_of-HasType v (some n) e = HasType-at (integer_number n) e
  float_of-HasType v none e =
      let (o, read, e1) = >>=-eq-value (python.to_float v) real_or_error e in
      real_or_error-HasType o e1

  read_number-HasType :
      (v : Value) {w : Value} → (python.to_int v >>= float_of python v) ≡ value w → HasType number w
  read_number-HasType v e =
      let (o, read, e1) = >>=-eq-value (python.to_int v) (float_of python v) e in
      float_of-HasType v o e1

  pub to_number-HasType : (v : Value) {w : Value} → to_number python v ≡ value w → HasType number w
  unfolding to_number
  to_number-HasType (int n) e = HasType-at (integer_number n) e
  to_number-HasType (bool b) e = HasType-at (boolean_number b) e
  to_number-HasType (real r) e = HasType-at (is_number r) e
  to_number-HasType null e = read_number-HasType null e
  to_number-HasType (text t) e = read_number-HasType (text t) e
  to_number-HasType (list vs) e = read_number-HasType (list vs) e
  to_number-HasType (map fs) e = read_number-HasType (map fs) e
