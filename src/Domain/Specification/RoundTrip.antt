-- ===== src/Domain/Specification/RoundTrip.antt =====
-- Conditions written out from a specification, and read back by the factory.
use rules_enrichment_daemon.Prelude.{String, ◌≡◌, refl, true, some}
use rules_enrichment_daemon.Domain.Errors.{ok}
use rules_enrichment_daemon.Domain.Json.{Json, str, arr, obj, Items, nil, cons, end, field, truthy}
use rules_enrichment_daemon.Domain.Json.Dict.{get_or_null}
use rules_enrichment_daemon.Domain.Value.{Runtime}
use rules_enrichment_daemon.Domain.Specification.{
  Op, eq, neq, gt, gte, lt, lte, contains, is_in, not_in, starts_with, ends_with, exists, regex,
  op_of, Spec, Specs, and_spec, or_spec, predicate, none_left, spec,
}
use rules_enrichment_daemon.Domain.Specification.Factory.{from_json, specs_of_items, predicate_of}

unfoldable pub op_name : Op → String
op_name eq = "eq"
op_name neq = "neq"
op_name gt = "gt"
op_name gte = "gte"
op_name lt = "lt"
op_name lte = "lte"
op_name contains = "contains"
op_name is_in = "in"
op_name not_in = "not_in"
op_name starts_with = "starts_with"
op_name ends_with = "ends_with"
op_name exists = "exists"
op_name regex = "regex"

unfoldable mutual
  unfolding op_name

  pub to_json : Spec → Json
  to_json (and_spec ss) = obj (field "and" (arr (to_items ss)) end)
  to_json (or_spec ss) = obj (field "or" (arr (to_items ss)) end)
  to_json (predicate path op value) =
      obj (field "field" path (field "op" (str (op_name op)) (field "value" value end)))

  pub to_items : Specs → Items
  to_items none_left = nil
  to_items (spec s ss) = cons (to_json s) (to_items ss)

-- every predicate names a field: a value that `not` does not reject
abbrev mutual
  pub NamesFields : Spec → Type 0
  NamesFields (and_spec ss) = AllNameFields ss
  NamesFields (or_spec ss) = AllNameFields ss
  NamesFields (predicate path op value) = truthy path ≡ true

  pub AllNameFields : Specs → Type 0
  AllNameFields none_left = Unit
  AllNameFields (spec s ss) = NamesFields s × AllNameFields ss

op_of-op_name : (op : Op) → op_of (op_name op) ≡ some op
unfolding op_of op_name
op_of-op_name eq = refl
op_of-op_name neq = refl
op_of-op_name gt = refl
op_of-op_name gte = refl
op_of-op_name lt = refl
op_of-op_name lte = refl
op_of-op_name contains = refl
op_of-op_name is_in = refl
op_of-op_name not_in = refl
op_of-op_name starts_with = refl
op_of-op_name ends_with = refl
op_of-op_name exists = refl
op_of-op_name regex = refl

op_name-truthy : (op : Op) → truthy (str (op_name op)) ≡ true
unfolding truthy op_name
op_name-truthy eq = refl
op_name-truthy _ = refl

module _ (rt : Runtime) where
  predicate_of-to_json :
      (path : Json) (op : Op) (value : Json)
      → truthy path ≡ true
      → predicate_of rt
          (field "field" path (field "op" (str (op_name op)) (field "value" value end)))
        ≡ ok (predicate path op value)
  unfolding predicate_of get_or_null
  predicate_of-to_json path op value named = rw (named, op_name-truthy op, op_of-op_name op)

  mutual
    unfolding from_json to_json

    reads : (s : Spec) → NamesFields s → from_json rt (to_json s) ≡ ok s
    reads (and_spec ss) h = rw (reads_items ss h)
    reads (or_spec ss) h = rw (reads_items ss h)
    reads (predicate path op value) h = predicate_of-to_json path op value h

    reads_items : (ss : Specs) → AllNameFields ss → specs_of_items rt (to_items ss) ≡ ok ss
    reads_items none_left h = refl
    reads_items (spec s ss) h = rw (reads s h.0, reads_items ss h.1)

  -- The factory reads every specification back from its conditions, at any depth of nesting, as
  -- long as each of its predicates names a field.
  pub from_json-to_json : (s : Spec) → NamesFields s → from_json rt (to_json s) ≡ ok s
  from_json-to_json s h = reads s h
