-- ===== src/Http/Client/Parts.antt =====
-- infrastructure/http/clients/manhattan_simulator_client.py: reading the fields of an order, its
-- addresses and its lines.
-- A JSON value of another type than the one that the dataclass declares is accepted by Python, which
-- checks no types; such an order is outside the model and read as `untyped`.
use rules_enrichment_daemon.Prelude.{
  String, Bool, ◌==◌, Option, none, some, List, [], ◌∷◌, if◌then◌else◌,
}
use rules_enrichment_daemon.Prelude.Int.{ℤ}
use rules_enrichment_daemon.Domain.Errors.{Error, key_error, type_error}
use rules_enrichment_daemon.Domain.Json.{
  Json, null, bool, int, float, str, arr, obj, Items, nil, cons, Fields, end,
}
use rules_enrichment_daemon.Domain.Json.Dict.{get, size}
use rules_enrichment_daemon.Domain.Order.{Address, Number, whole, dyadic, ExternalOrderLine}

-- what reading ends with
pub data Reading (A : Type 0) : Type 0 where
  done : A → Reading A
  raises : Error → Reading A
  untyped : Reading A

module _ {A B : Type 0} where
  infixl 5 ◌>>=◌
  abbrev pub ◌>>=◌ : Reading A → (A → Reading B) → Reading B
  done x >>= next = next x
  raises e >>= next = raises e
  untyped >>= next = untyped

-- `data[key]`
abbrev pub item : String → Fields → Reading Json
item key body = elim (get key body) [ none ↦ raises key_error | some v ↦ done v ]

-- the declared types of fields
abbrev pub text_of : Json → Reading String
text_of (str s) = done s
text_of _ = untyped

abbrev pub int_of : Json → Reading ℤ
int_of (int n) = done n
int_of _ = untyped

abbrev pub number_of : Json → Reading Number
number_of (int n) = done (whole n)
number_of (float m k) = done (dyadic m k)
number_of _ = untyped

abbrev pub bool_of : Json → Reading Bool
bool_of (bool b) = done b
bool_of _ = untyped

-- `str | None`, and `None` for a missing key
abbrev pub optional_text_of : Option Json → Reading (Option String)
optional_text_of none = done none
optional_text_of (some null) = done none
optional_text_of (some (str s)) = done (some s)
optional_text_of (some _) = untyped

abbrev pub text : String → Fields → Reading String
text key body = item key body >>= text_of

abbrev pub integer : String → Fields → Reading ℤ
integer key body = item key body >>= int_of

abbrev pub number : String → Fields → Reading Number
number key body = item key body >>= number_of

abbrev pub boolean : String → Fields → Reading Bool
boolean key body = item key body >>= bool_of

-- a missing argument of `Address(**fields)` is a TypeError
abbrev pub argument : String → Fields → Reading String
argument key fields = elim (get key fields) [ none ↦ raises type_error | some v ↦ text_of v ]

-- the five arguments that `Address` has
unfoldable pub address_arguments : Fields → Reading Address
unfolding get
address_arguments fields = argument "name" fields >>= λ name.
    argument "address_line_1" fields >>= λ address_line_1. argument "city" fields >>= λ city.
    argument "postal_code" fields >>= λ postal_code.
    argument "country_code" fields >>= λ country_code. done (record {
      name = name;
      address_line_1 = address_line_1;
      city = city;
      postal_code = postal_code;
      country_code = country_code;
    })

-- `Address(**fields)`: no argument more than these
unfoldable pub address_of_fields : Fields → Reading Address
unfolding address_arguments size
address_of_fields fields = if size fields == 5 then address_arguments fields else raises type_error

-- only a mapping can be unpacked
abbrev pub address_of : Json → Reading Address
address_of (obj fields) = address_of_fields fields
address_of _ = raises type_error

-- one `ExternalOrderLine(...)`
unfoldable pub to_line : Fields → Reading ExternalOrderLine
unfolding get
to_line line = integer "line_number" line >>= λ line_number. text "sku" line >>= λ sku.
    text "description" line >>= λ description. integer "quantity" line >>= λ quantity.
    text "uom" line >>= λ uom. number "unit_weight_kg" line >>= λ unit_weight_kg.
    number "unit_volume_m3" line >>= λ unit_volume_m3. boolean "hazmat_flag" line >>= λ hazmat_flag.
    text "temperature_class" line >>= λ temperature_class. done (record {
      line_number = line_number;
      sku = sku;
      description = description;
      quantity = quantity;
      uom = uom;
      unit_weight_kg = unit_weight_kg;
      unit_volume_m3 = unit_volume_m3;
      hazmat_flag = hazmat_flag;
      temperature_class = temperature_class;
    })

-- a line that is no dict has no text keys
abbrev pub line_of : Json → Reading ExternalOrderLine
line_of (obj line) = to_line line
line_of _ = raises type_error

-- the comprehension over the lines
unfoldable pub lines_of_items : Items → Reading (List ExternalOrderLine)
lines_of_items nil = done []
lines_of_items (cons line rest) =
    let others = lines_of_items rest in line_of line >>= λ l. others >>= λ ls. done (l ∷ ls)

-- `data.get("lines", [])`: only an iterable can be read; characters and keys are no lines
unfoldable pub lines_of : Option Json → Reading (List ExternalOrderLine)
lines_of none = done []
lines_of (some (arr items)) = lines_of_items items
lines_of (some (str String.[])) = done []
lines_of (some (obj end)) = done []
lines_of (some _) = raises type_error
