-- ===== src/Schema/Check/Accepted.antt =====
-- Which data an operation and a specification accept.
use senlin.Prelude.{
  ℕ, ◌≡◌, ◌≢◌, ◌⊎◌, refl, ◌↔◌, inl, inr, true, false, Option, none, some, Bool-cases, arith, ◌≤◌,
}
use senlin.Schema.{
  Value, null, Fields, no_fields, and_field, Item, item, Items, no_items, and_item, value, ◌>>=◌,
  wrap, Python, field, is_item,
}
use senlin.Schema.Resolve.Typed.{>>=-eq-value, schema_error-value, wrap-value}
use senlin.Schema.Resolve.{resolve, get_default}
use senlin.Schema.Check.{
  Validation, operation_item, is_too_early, is_too_late, validate_version, check_items, check_keys,
  validate_operation,
}

-- Every key of the data is that of an item.
pub data AllKnown (items : Items) : Fields → Type 0 where
  no_keys : AllKnown items no_fields
  known_key :
      {k : ℕ} {v : Value} {rest : Fields}
      → is_item k items ≡ true
      → AllKnown items rest
      → AllKnown items (and_field k v rest)

abbrev pub AtLeast : Option ℕ → ℕ → Type 0
AtLeast none version = Unit
AtLeast (some low) version = low ≤ version

abbrev pub AtMost : Option ℕ → ℕ → Type 0
AtMost none version = Unit
AtMost (some high) version = version ≤ high

-- The version, if there is one, is not out of the range of an item.
abbrev pub Supports : Item → Option ℕ → Type 0
Supports (item s d r allowed low high) none = Unit
Supports (item s d r allowed low high) (some version) = AtLeast low version × AtMost high version

-- Every item passes a test of what the data have for it, and supports the version.
pub data AllPass (test : Item → Option Value → Validation) (fs : Fields) (version : Option ℕ)
    : Items → Type 0 where
  all_passed : AllPass test fs version no_items
  one_passed :
      {k : ℕ} {it : Item} {rest : Items}
      → test it (field k fs) ≡ value tt
      → Supports it version
      → AllPass test fs version rest
      → AllPass test fs version (and_item k it rest)

check_keys-AllKnown :
    (items : Items) (fs : Fields) → check_keys items fs ≡ value tt → AllKnown items fs
unfolding check_keys
check_keys-AllKnown items no_fields e = no_keys
check_keys-AllKnown items (and_field k v rest) e = elim (Bool-cases (is_item k items)) [
  | inl p ↦ known_key p (check_keys-AllKnown items rest (rw p at e))
  | inr p ↦ absurd (schema_error-value (rw p at e))
]

AllKnown-check_keys :
    (items : Items) (fs : Fields) → AllKnown items fs → check_keys items fs ≡ value tt
unfolding check_keys
AllKnown-check_keys items no_fields no_keys = refl
AllKnown-check_keys items (and_field k v rest) (known_key p h) =
    rw p (AllKnown-check_keys items rest h)

validate_version-Supports :
    (it : Item) (version : Option ℕ) → validate_version it version ≡ value tt → Supports it version
unfolding validate_version is_too_early is_too_late
validate_version-Supports (item s d r allowed low high) none e = tt
validate_version-Supports (item s d r allowed none none) (some v) e = (tt, tt)
validate_version-Supports (item s d r allowed none (some h)) (some v) e = (tt, ground (arith, e))
validate_version-Supports (item s d r allowed (some l) none) (some v) e = (ground (arith, e), tt)
validate_version-Supports (item s d r allowed (some l) (some h)) (some v) e =
    (ground (arith, e), ground (arith, e))

Supports-validate_version :
    (it : Item) (version : Option ℕ) → Supports it version → validate_version it version ≡ value tt
unfolding validate_version is_too_early is_too_late
Supports-validate_version (item s d r allowed low high) none h = refl
Supports-validate_version (item s d r allowed none none) (some v) h = refl
Supports-validate_version (item s d r allowed none (some y)) (some v) (a, b) = ground (arith, b)
Supports-validate_version (item s d r allowed (some x) none) (some v) (a, b) = ground (arith, a)
Supports-validate_version (item s d r allowed (some x) (some y)) (some v) (a, b) =
    ground (arith, a, b)

module _ (test : Item → Option Value → Validation) (fs : Fields) (version : Option ℕ) where
  check_items-AllPass :
      (items : Items) → check_items test items fs version ≡ value tt → AllPass test fs version items
  unfolding check_items
  check_items-AllPass no_items e = all_passed
  check_items-AllPass (and_item k it rest) e =
      let (u, first, later) =
        >>=-eq-value
          (wrap (test it (field k fs) >>= (λ (u : Unit {0}). validate_version it version))) _ e in
      let (v, passed, supported) = >>=-eq-value (test it (field k fs)) _ (wrap-value _ first) in
      one_passed passed (validate_version-Supports it version supported)
        (check_items-AllPass rest later)

  AllPass-check_items :
      (items : Items) → AllPass test fs version items → check_items test items fs version ≡ value tt
  unfolding check_items wrap
  AllPass-check_items no_items all_passed = refl
  AllPass-check_items (and_item k it rest) (one_passed passed supported later) =
      rw (passed, Supports-validate_version it version supported) (AllPass-check_items rest later)

-- The data of an operation are accepted exactly when each parameter that they give is one of the
-- operation, and each parameter of the operation supports the version asked for, if there is one,
-- and is given a valid value, or is left out and not required.
pub validate_operation_iff :
    (python : Python) (items : Items) (fs : Fields) (version : Option ℕ)
    → (validate_operation python items fs version ≡ value tt)
      ↔ (AllKnown items fs × AllPass (operation_item python) fs version items)
unfolding validate_operation
validate_operation_iff python items fs version = (to, from)
  where
    to :
        validate_operation python items fs version ≡ value tt
        → AllKnown items fs × AllPass (operation_item python) fs version items
    to e =
        let (u, keys, later) = >>=-eq-value (check_keys items fs) _ e in
        (
          check_keys-AllKnown items fs keys,
          check_items-AllPass (operation_item python) fs version items later,
        )

    from :
        AllKnown items fs × AllPass (operation_item python) fs version items
        → validate_operation python items fs version ≡ value tt
    from (a, b) =
        rw (AllKnown-check_keys items fs a)
          (AllPass-check_items (operation_item python) fs version items b)

-- A value that an item is given is resolved by its schema; an item that is left out has a default
-- other than null that the schema takes, or is not required.
abbrev pub IsResolved : Python → Item → Option Value → Type 0
IsResolved python (item s default required allowed low high) (some v) =
    (w : Value) × (resolve python s v ≡ value w)
IsResolved python (item s default required allowed low high) none =
    ((default ≡ null) × (required ≡ false))
    ⊎ ((default ≢ null) × ((w : Value) × (get_default python s default ≡ value w)))

-- Every item is given such a value, and supports the version.
pub data AllResolved (python : Python) (fs : Fields) (version : Option ℕ) : Items → Type 0 where
  all_resolved : AllResolved python fs version no_items
  one_resolved :
      {k : ℕ} {it : Item} {rest : Items}
      → IsResolved python it (field k fs)
      → Supports it version
      → AllResolved python fs version rest
      → AllResolved python fs version (and_item k it rest)
