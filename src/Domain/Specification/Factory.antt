-- ===== src/Domain/Specification/Factory.antt =====
-- domain/services/rule_specification_factory.py: conditions to specifications. Conditions that are
-- no dict end in the exception that Python raises for them.
use rules_enrichment_daemon.Prelude.{
  String, Bool, true, false, ◌||◌, str_eq, Option, none, some, not, if◌then◌else◌,
}
use rules_enrichment_daemon.Prelude.Text.{contains_text}
use rules_enrichment_daemon.Domain.Errors.{
  Error, Result, ok, err, ◌>>=◌, type_error, attribute_error, invalid_rule_definition,
}
use rules_enrichment_daemon.Domain.Json.{
  Json, str, arr, obj, Items, nil, cons, Fields, end, field, truthy,
}
use rules_enrichment_daemon.Domain.Json.Compare.{item_in}
use rules_enrichment_daemon.Domain.Json.Dict.{get_or_null, has}
use rules_enrichment_daemon.Domain.Specification.{
  Op, op_of, Spec, Specs, and_spec, or_spec, predicate, none_left, spec,
}
use rules_enrichment_daemon.Domain.Value.{json, Runtime, py_str}
use Prim.Native.String.{◌++◌}

-- `__post_init__`: a list or a dict as operator cannot be looked up in the set
abbrev pub unsupported : Runtime → Json → Error
unsupported rt op = invalid_rule_definition ("unsupported operator: " ++ py_str rt (json op))

abbrev pub or_error {ℓ} : {A : Type ℓ} → Option A → Error → Result A
or_error none e = err e
or_error (some a) e = ok a

abbrev pub checked_op : Runtime → Json → Result Op
checked_op rt (str s) = or_error (op_of s) (unsupported rt (str s))
checked_op rt (arr xs) = err type_error
checked_op rt (obj fs) = err type_error
checked_op rt op = err (unsupported rt op)

-- the predicate of a dict with neither "and" nor "or"
unfoldable pub predicate_of : Runtime → Fields → Result Spec
predicate_of rt fs =
    let path = get_or_null "field" fs in
    let op = get_or_null "op" fs in
    if not (truthy path) || not (truthy op)
    then err (invalid_rule_definition "predicate requires field and op")
    else checked_op rt op >>= λ o. ok (predicate path o (get_or_null "value" fs))

-- `"and" in text` lets the subscript raise, else `.get` does
abbrev not_a_dict : Bool → Result Spec
not_a_dict true = err type_error
not_a_dict false = err attribute_error

-- iterating over a dict gives its keys, over a text its characters, and neither is a dict
abbrev specs_of_keys : Fields → Result Specs
specs_of_keys end = ok none_left
specs_of_keys (field k v fs) =
    not_a_dict (contains_text k "and" || contains_text k "or") >>= λ s. ok (spec s none_left)

abbrev specs_of_text : String → Result Specs
specs_of_text String.[] = ok none_left
specs_of_text (String.◌∷◌ c s) = err attribute_error

unfoldable mutual
  unfolding has item_in contains_text predicate_of

  pub from_json : Runtime → Json → Result Spec
  from_json rt (obj fs) = elim (has "and" fs) [
    | true ↦ specs_at rt "and" fs >>= λ specs. ok (and_spec specs)
    | false ↦ elim (has "or" fs) [
      | true ↦ specs_at rt "or" fs >>= λ specs. ok (or_spec specs)
      | false ↦ predicate_of rt fs
    ]
  ]
  from_json rt (arr xs) = not_a_dict (item_in (str "and") xs || item_in (str "or") xs)
  from_json rt (str s) = not_a_dict (contains_text s "and" || contains_text s "or")
  from_json rt _ = err type_error

  -- `[self.from_json(item) for item in conditions[key]]`
  pub specs_at : Runtime → String → Fields → Result Specs
  specs_at rt key end = ok none_left
  specs_at rt key (field k v fs) = elim (str_eq k key) [
    | true ↦ specs_of rt v
    | false ↦ specs_at rt key fs
  ]

  pub specs_of : Runtime → Json → Result Specs
  specs_of rt (arr xs) = specs_of_items rt xs
  specs_of rt (obj fs) = specs_of_keys fs
  specs_of rt (str s) = specs_of_text s
  specs_of rt _ = err type_error

  pub specs_of_items : Runtime → Items → Result Specs
  specs_of_items rt nil = ok none_left
  specs_of_items rt (cons x xs) =
      let rest = specs_of_items rt xs in from_json rt x >>= λ s. rest >>= λ ss. ok (spec s ss)
