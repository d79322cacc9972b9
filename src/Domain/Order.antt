-- ===== src/Domain/Order.antt =====
-- The order entities: domain/value_objects/address.py, domain/entities/external_order.py and
-- external_order_line.py, and an order's fields as values.
use rules_enrichment_daemon.Prelude.{
  ℕ, String, Bool, false, ◌||◌, Option, none, some, List, [], ◌∷◌, str_eq, if◌then◌else◌,
}
use rules_enrichment_daemon.Prelude.Int.{ℤ}
use rules_enrichment_daemon.Domain.Datetime.{Datetime}
use rules_enrichment_daemon.Domain.Json.{
  Json, null, int, float, str, datetime, arr, obj, bool, Items, nil, cons, Fields, end, field,
}

pub record Address : Type 0 where
  pub name : String
  pub address_line_1 : String
  pub city : String
  pub postal_code : String
  pub country_code : String

-- what a field declared `float` holds: JSON may give it an int
pub data Number : Type 0 where
  whole : ℤ → Number
  dyadic : ℤ → ℕ → Number

abbrev pub number_json : Number → Json
number_json (whole n) = int n
number_json (dyadic m k) = float m k

pub record ExternalOrderLine : Type 0 where
  pub line_number : ℤ
  pub sku : String
  pub description : String
  pub quantity : ℤ
  pub uom : String
  pub unit_weight_kg : Number
  pub unit_volume_m3 : Number
  pub hazmat_flag : Bool
  pub temperature_class : String

pub record ExternalOrder : Type 0 where
  pub order_id : String
  pub client_code : String
  pub facility_code : String
  pub zone_code : Option String
  pub order_type : String
  pub priority : ℤ
  pub status : String
  pub source_address : Address
  pub destination_address : Address
  pub total_weight_kg : Number
  pub total_volume_m3 : Number
  pub lines : List ExternalOrderLine
  pub created_at : Datetime
  pub updated_at : Datetime

any_hazmat : List ExternalOrderLine → Bool
any_hazmat [] = false
any_hazmat (line ∷ rest) = line.hazmat_flag || any_hazmat rest

unfoldable pub has_hazmat : ExternalOrder → Bool
unfolding any_hazmat
has_hazmat order = any_hazmat order.lines

unfoldable pub is_member : String → List String → Bool
is_member s [] = false
is_member s (t ∷ ts) = str_eq t s || is_member s ts

classes_of : List ExternalOrderLine → List String
unfolding is_member
classes_of [] = []
classes_of (line ∷ rest) =
    let classes = classes_of rest in
    if is_member line.temperature_class classes then classes else line.temperature_class ∷ classes

-- a set: the classes, each once
unfoldable pub temperature_classes : ExternalOrder → List String
unfolding classes_of
temperature_classes order = classes_of order.lines

-- `str | None` as a value
abbrev pub optional_text : Option String → Json
optional_text none = null
optional_text (some s) = str s

-- `dataclasses.asdict`, which keeps datetimes as they are
unfoldable pub address_dict : Address → Fields
address_dict a = field "name" (str a.name) (
    field "address_line_1" (str a.address_line_1) (
      field "city" (str a.city)
        (field "postal_code" (str a.postal_code) (field "country_code" (str a.country_code) end))))

unfoldable pub line_dict : ExternalOrderLine → Fields
line_dict l = field "line_number" (int l.line_number) (
    field "sku" (str l.sku) (
      field "description" (str l.description) (
        field "quantity" (int l.quantity) (
          field "uom" (str l.uom) (
            field "unit_weight_kg" (number_json l.unit_weight_kg) (
              field "unit_volume_m3" (number_json l.unit_volume_m3) (
                field "hazmat_flag" (bool l.hazmat_flag)
                  (field "temperature_class" (str l.temperature_class) end))))))))

unfoldable pub lines_dict : List ExternalOrderLine → Items
unfolding line_dict
lines_dict [] = nil
lines_dict (l ∷ rest) = cons (obj (line_dict l)) (lines_dict rest)

unfoldable pub asdict : ExternalOrder → Fields
unfolding address_dict lines_dict
asdict o = field "order_id" (str o.order_id) (
    field "client_code" (str o.client_code) (
      field "facility_code" (str o.facility_code) (
        field "zone_code" (optional_text o.zone_code) (
          field "order_type" (str o.order_type) (
            field "priority" (int o.priority) (
              field "status" (str o.status) (
                field "source_address" (obj (address_dict o.source_address)) (
                  field "destination_address" (obj (address_dict o.destination_address)) (
                    field "total_weight_kg" (number_json o.total_weight_kg) (
                      field "total_volume_m3" (number_json o.total_volume_m3) (
                        field "lines" (arr (lines_dict o.lines)) (
                          field "created_at" (datetime o.created_at)
                            (field "updated_at" (datetime o.updated_at) end)))))))))))))
