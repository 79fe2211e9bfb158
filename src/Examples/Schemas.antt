-- ===== src/Examples/Schemas.antt =====
-- A specification with a required integer, which its schema allows to be 1 or 2 only, and a list of
-- texts.
use senlin.Prelude.{◌≡◌, refl, true, false, none, some, [], ◌∷◌}
use senlin.Prelude.Int.{pos}
use senlin.Schema.{
  null, int, text, list, map, no_values, and_value, Fields, no_fields, and_field, integer, string,
  list_of, map_of, item, Items, no_items, and_item, value, type_error, Python,
}
use senlin.Schema.Resolve.{resolve}
use senlin.Schema.Resolve.Typed.{HasType}
use senlin.Schema.Resolve.Sound.{resolve-HasType}
use senlin.Schema.Check.{validate_spec}

-- Each text is the number that it is coded by.
abbrev python : Python
python = record {
  to_bool = λ v. none;
  to_int = λ v. elim v [ text t ↦ value (some (pos t)) | _ ↦ type_error ];
  to_float = λ v. type_error;
  to_text = λ v. elim v [ text t ↦ t | _ ↦ 0 ];
  loads = λ t. none;
  characters = λ t. no_values;
}

abbrev items : Items
items = and_item 1 (item integer null true (some (int (pos 1) ∷ int (pos 2) ∷ [])) none (some 10)) (
    and_item 2 (item (list_of (item string null false none none none)) null false none none none)
      no_items)

abbrev fields : Fields
fields = and_field 1 (text 7) (and_field 2 (list (and_value (text 5) no_values)) no_fields)

abbrev resolved_fields : Fields
resolved_fields =
    and_field 1 (int (pos 7)) (and_field 2 (list (and_value (text 5) no_values)) no_fields)

fields_resolved : resolve python (map_of items) (map fields) ≡ value (map resolved_fields)
unfolding resolve
fields_resolved = refl

resolve-HasType_example : HasType (map_of items) (map resolved_fields)
resolve-HasType_example =
    resolve-HasType python (map_of items) (map fields) (map resolved_fields) fields_resolved

-- The value 7 is accepted, though the constraint does not allow it.
seven_accepted : validate_spec python items fields (some 9) ≡ value tt
unfolding validate_spec
seven_accepted = refl
