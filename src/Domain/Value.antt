-- ===== src/Domain/Value.antt =====
-- The objects that a field path of a rule can reach, the attributes of the dataclasses, and what
-- Python and its libraries do with objects that the sources do not define.
use rules_enrichment_daemon.Prelude.{
  ℕ, String, Ordering, Bool, true, false, Option, none, some, List, [], ◌∷◌, str_eq, if◌then◌else◌,
}
use rules_enrichment_daemon.Domain.Datetime.{Datetime}
use rules_enrichment_daemon.Domain.Json.{Json, int, str, datetime, arr, nil, cons}
use rules_enrichment_daemon.Domain.Json.Compare.{json_eq, json_compare}
use rules_enrichment_daemon.Domain.Errors.{Error}
use rules_enrichment_daemon.Domain.Order.{
  Address, ExternalOrderLine, ExternalOrder, number_json, optional_text,
}

-- `other` is any further object, such as a bound method: it equals no JSON value and has no order
pub data Value : Type 0 where
  json : Json → Value
  address : Address → Value
  lines : List ExternalOrderLine → Value
  order : ExternalOrder → Value
  other : ℕ → Value

-- What is outside the sources.
pub record Runtime : Type 0 where
  -- `str(value)` of a value that is no text
  pub str_of : Value → String
  -- `text.lower()`
  pub lower : String → String
  -- `re.search(pattern, text) is not None`, and `none` for `re.error`
  pub search_regex : String → String → Option Bool
  -- `getattr(value, name, None)` for a name that is no dataclass field
  pub attribute : Value → String → Value
  -- `value.isoformat()`
  pub isoformat : Datetime → String
  -- the SHA-256 of the JSON text of a value, `separators=(",", ":")`, its dicts in their order
  pub digest : Json → String
  -- `str(exc)` of an exception that the sources do not raise themselves
  pub message : Error → String

-- the fields of `Address`
unfoldable pub address_attribute : Address → String → Option Value
address_attribute a name =
    if str_eq name "name"
    then some (json (str a.name))
    else if str_eq name "address_line_1"
    then some (json (str a.address_line_1))
    else if str_eq name "city"
    then some (json (str a.city))
    else if str_eq name "postal_code"
    then some (json (str a.postal_code))
    else if str_eq name "country_code"
    then some (json (str a.country_code))
    else none

-- the fields of `ExternalOrder`
unfoldable pub order_attribute : ExternalOrder → String → Option Value
order_attribute o name =
    if str_eq name "order_id"
    then some (json (str o.order_id))
    else if str_eq name "client_code"
    then some (json (str o.client_code))
    else if str_eq name "facility_code"
    then some (json (str o.facility_code))
    else if str_eq name "zone_code"
    then some (json (optional_text o.zone_code))
    else if str_eq name "order_type"
    then some (json (str o.order_type))
    else if str_eq name "priority"
    then some (json (int o.priority))
    else if str_eq name "status"
    then some (json (str o.status))
    else if str_eq name "source_address"
    then some (address o.source_address)
    else if str_eq name "destination_address"
    then some (address o.destination_address)
    else if str_eq name "total_weight_kg"
    then some (json (number_json o.total_weight_kg))
    else if str_eq name "total_volume_m3"
    then some (json (number_json o.total_volume_m3))
    else if str_eq name "lines"
    then some (lines o.lines)
    else if str_eq name "created_at"
    then some (json (datetime o.created_at))
    else if str_eq name "updated_at"
    then some (json (datetime o.updated_at))
    else none

abbrev value_or : Option Value → Value → Value
value_or none d = d
value_or (some v) d = v

-- `getattr(value, name, None)`
unfoldable pub getattr : Runtime → Value → String → Value
unfolding address_attribute order_attribute
getattr rt (address a) name = value_or (address_attribute a name) (rt.attribute (address a) name)
getattr rt (order o) name = value_or (order_attribute o name) (rt.attribute (order o) name)
getattr rt v name = rt.attribute v name

-- `left == right`
unfoldable pub value_eq : Value → Json → Bool
unfolding json_eq
value_eq (json a) b = json_eq a b
value_eq (lines []) (arr nil) = true
value_eq _ _ = false

-- the order of an object and a JSON value, `none` where Python raises TypeError
unfoldable pub value_compare : Value → Json → Option Ordering
unfolding json_compare
value_compare (json a) b = json_compare a b
value_compare (lines []) (arr nil) = some Ordering.eq
value_compare (lines []) (arr (cons y ys)) = some Ordering.lt
value_compare (lines (x ∷ xs)) (arr nil) = some Ordering.gt
value_compare _ _ = none

-- `str(value)`
unfoldable pub py_str : Runtime → Value → String
py_str rt (json (str s)) = s
py_str rt v = rt.str_of v
