-- ===== src/Domain/Specification.antt =====
-- Specifications of rules: domain/specifications/base.py, composite.py and predicate.py. A
-- specification is a tree, and `is_satisfied_by` a function by clauses on it.
pub mod Factory
pub mod Semantics
pub mod Operators
pub mod RoundTrip
use rules_enrichment_daemon.Prelude.{
  ℕ, String, Ordering, Bool, true, false, not, Option, none, some, List, [], ◌∷◌, ltb, str_eq,
  if◌then◌else◌,
}
use rules_enrichment_daemon.Prelude.Text as Text
use rules_enrichment_daemon.Prelude.Text.{contains_text, count_chars, split_dots}
use rules_enrichment_daemon.Domain.Errors.{
  Result, ok, err, ◌>>=◌, type_error, attribute_error, re_error, invalid_rule_definition,
}
use rules_enrichment_daemon.Domain.Json.{
  Json, str, datetime, is_none, arr, obj, Items, nil, cons, Fields,
}
use rules_enrichment_daemon.Domain.Json.Dict.{get_or_null, has}
use rules_enrichment_daemon.Domain.Order.{ExternalOrder}
use rules_enrichment_daemon.Domain.Value.{
  Value, json, lines, address, order, other, Runtime, getattr, value_eq, value_compare, py_str,
}

-- `_ALLOWED_OPS`
pub data Op : Type 0 where
  eq neq gt gte lt lte contains is_in not_in starts_with ends_with exists regex : Op

-- the operator of a name, `none` outside `_ALLOWED_OPS`
unfoldable pub op_of : String → Option Op
op_of s =
    if str_eq s "eq"
    then some eq
    else if str_eq s "neq"
    then some neq
    else if str_eq s "gt"
    then some gt
    else if str_eq s "gte"
    then some gte
    else if str_eq s "lt"
    then some lt
    else if str_eq s "lte"
    then some lte
    else if str_eq s "contains"
    then some contains
    else if str_eq s "in"
    then some is_in
    else if str_eq s "not_in"
    then some not_in
    else if str_eq s "starts_with"
    then some starts_with
    else if str_eq s "ends_with"
    then some ends_with
    else if str_eq s "exists"
    then some exists
    else if str_eq s "regex"
    then some regex
    else none

mutual
  pub data Spec : Type 0 where
    and_spec : Specs → Spec
    or_spec : Specs → Spec
    predicate : Json → Op → Json → Spec

  pub data Specs : Type 0 where
    none_left : Specs
    spec : Spec → Specs → Specs

-- the value is Python's None
abbrev pub is_missing : Value → Bool
is_missing (json v) = is_none v
is_missing _ = false

-- one token of a path: an item of a dict, or an attribute
unfoldable pub step : Runtime → Value → String → Value
unfolding getattr get_or_null
step rt (json (obj fs)) token = json (get_or_null token fs)
step rt current token = getattr rt current token

-- the loop of `_extract`
unfoldable pub extract_from : Runtime → Value → List String → Value
unfolding step
extract_from rt current [] = current
extract_from rt current (token ∷ tokens) =
    let next = step rt current token in
    let rest = extract_from rt next tokens in if is_missing next then next else rest

unfoldable pub extract : Runtime → ExternalOrder → String → Value
unfolding extract_from split_dots
extract rt o field_path = extract_from rt (order o) (split_dots field_path)

-- a comparison's answer, or TypeError
abbrev pub ordered : (Ordering → Bool) → Option Ordering → Result Bool
ordered test none = err type_error
ordered test (some c) = ok (test c)

abbrev pub is_lt : Ordering → Bool
is_lt Ordering.lt = true
is_lt _ = false

abbrev pub is_gt : Ordering → Bool
is_gt Ordering.gt = true
is_gt _ = false

-- `any(left == x for x in items)`
unfoldable pub value_in_items : Value → Items → Bool
unfolding value_eq
value_in_items left nil = false
value_in_items left (cons x xs) = if value_eq left x then true else value_in_items left xs

-- `left in d`: only a text can be a key, and a list, a dict or an order cannot be hashed
abbrev key_in : Value → Fields → Result Bool
key_in (json (str s)) fs = ok (has s fs)
key_in (json (arr xs)) fs = err type_error
key_in (json (obj gs)) fs = err type_error
key_in (lines ls) fs = err type_error
key_in (order o) fs = err type_error
key_in _ fs = ok false

-- `left in text`
abbrev text_in : Value → String → Result Bool
text_in (json (str s)) t = ok (contains_text t s)
text_in _ t = err type_error

-- `left in right`
unfoldable pub member_of : Value → Json → Result Bool
unfolding value_in_items has contains_text
member_of left (arr xs) = ok (value_in_items left xs)
member_of left (obj fs) = key_in left fs
member_of left (str t) = text_in left t
member_of left _ = err type_error

-- `re.search` with the limit on the pattern
abbrev searched : Option Bool → Result Bool
searched none = err re_error
searched (some found) = ok found

unfoldable pub match_regex : Runtime → String → String → Result Bool
unfolding count_chars
match_regex rt pattern text =
    if ltb 128 (count_chars pattern)
    then err (invalid_rule_definition "regex too long")
    else searched (rt.search_regex pattern text)

-- the ladder of `PredicateSpecification.is_satisfied_by` for a field that is there
unfoldable pub apply_op : Runtime → Op → Value → Json → Result Bool
apply_op rt eq left right = ok (value_eq left right)
apply_op rt neq left right = ok (not (value_eq left right))
apply_op rt gt left right = ordered is_gt (value_compare left right)
apply_op rt gte left right = ordered (λ c. not (is_lt c)) (value_compare left right)
apply_op rt lt left right = ordered is_lt (value_compare left right)
apply_op rt lte left right = ordered (λ c. not (is_gt c)) (value_compare left right)
apply_op rt contains left right =
    ok (contains_text (rt.lower (py_str rt left)) (rt.lower (py_str rt (json right))))
apply_op rt is_in left right = member_of left right
apply_op rt not_in left right = member_of left right >>= λ found. ok (not found)
apply_op rt starts_with left right = ok (Text.starts_with (py_str rt left) (py_str rt (json right)))
apply_op rt ends_with left right = ok (Text.ends_with (py_str rt left) (py_str rt (json right)))
apply_op rt exists left right = ok true
apply_op rt regex left right = match_regex rt (py_str rt (json right)) (py_str rt left)

-- `exists` asks whether there is a value; every other operator fails on a missing one
unfoldable pub test_value : Runtime → Op → Value → Json → Result Bool
test_value rt exists left right = ok (not (is_missing left))
test_value rt op left right = if is_missing left then ok false else apply_op rt op left right

-- a field that is no text has no `split`
unfoldable pub test_predicate : Runtime → ExternalOrder → Json → Op → Json → Result Bool
test_predicate rt o (str path) op right = test_value rt op (extract rt o path) right
test_predicate rt o _ op right = err attribute_error

-- `Specification.is_satisfied_by`; `all` and `any` stop at the first answer
unfoldable mutual
  pub is_satisfied_by : Runtime → ExternalOrder → Spec → Result Bool
  is_satisfied_by rt o (and_spec specs) = all_satisfied rt o specs
  is_satisfied_by rt o (or_spec specs) = any_satisfied rt o specs
  is_satisfied_by rt o (predicate path op right) = test_predicate rt o path op right

  pub all_satisfied : Runtime → ExternalOrder → Specs → Result Bool
  all_satisfied rt o none_left = ok true
  all_satisfied rt o (spec s rest) =
      let later = all_satisfied rt o rest in
      is_satisfied_by rt o s >>= λ holds. if holds then later else ok false

  pub any_satisfied : Runtime → ExternalOrder → Specs → Result Bool
  any_satisfied rt o none_left = ok false
  any_satisfied rt o (spec s rest) =
      let later = any_satisfied rt o rest in
      is_satisfied_by rt o s >>= λ holds. if holds then ok true else later
