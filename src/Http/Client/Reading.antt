-- ===== src/Http/Client/Reading.antt =====
-- infrastructure/http/clients/manhattan_simulator_client.py: reading orders from the answers.
pub mod Aware
pub mod RoundTrip
use Prim.Native.Char.{code}
use Prim.Native.String.{◌++◌}
use rules_enrichment_daemon.Prelude.{
  ℕ, String, Bool, true, false, not, ◌==◌, Option, none, some, List, [], ◌∷◌, str_eq, leb, ltb,
  ◌&&◌, if◌then◌else◌,
}
use rules_enrichment_daemon.Prelude.Int.{ℤ, pos}
use rules_enrichment_daemon.Domain.Errors.{
  Error, Result, ok, err, key_error, type_error, attribute_error,
}
use rules_enrichment_daemon.Domain.Datetime.{Datetime, replace_utc}
use rules_enrichment_daemon.Domain.Json.{
  Json, null, bool, int, float, str, datetime, arr, obj, Items, nil, cons, Fields, end, field,
}
use rules_enrichment_daemon.Domain.Json.Dict.{get, has, size}
use rules_enrichment_daemon.Domain.Order.{
  Address, Number, whole, dyadic, ExternalOrderLine, ExternalOrder,
}
use rules_enrichment_daemon.Http.Retry.{Response, Trail}
use rules_enrichment_daemon.Http.Client.{ClientSettings, Network, request}
use rules_enrichment_daemon.Http.Client.Parts.{
  done, raises, untyped, Reading, ◌>>=◌, item, text_of, int_of, number_of, bool_of,
  optional_text_of, text, integer, number, boolean, argument, address_arguments, address_of_fields,
  address_of, to_line, line_of, lines_of_items, lines_of,
}

-- `text.replace("Z", "+00:00")`
unfoldable pub replace_z : String → String
replace_z String.[] = ""
replace_z (String.◌∷◌ c s) =
    let rest = replace_z s in if code c == b'Z' then "+00:00" ++ rest else String.◌∷◌ c rest

-- `dt if dt.tzinfo is not None else dt.replace(tzinfo=timezone.utc)`
abbrev pub with_zone : Datetime → Datetime
with_zone t = elim t.offset [ none ↦ replace_utc t | some o ↦ t ]

abbrev pub normalized : Result Datetime → Reading Datetime
normalized (ok t) = done (with_zone t)
normalized (err e) = raises e

-- what is read from a response, or the exception of the request
abbrev pub read_body :
    {A : Type 0} → (Json → Reading A) → Result Response × Trail → Reading A × Trail
read_body read (ok response, t) = (read response.body, t)
read_body read (err e, t) = (raises e, t)

-- the query of `get_orders_for_enrichment`
unfoldable pub query_of : (Datetime → String) → Option Datetime → ℕ → Fields
query_of isoformat updated_since limit = field "status" (str "READY_FOR_ENRICHMENT") (
    field "limit" (int (pos limit)) (
      field "offset" (int (pos 0)) (elim updated_since [
        | none ↦ end
        | some t ↦ field "updated_since" (str (isoformat t)) end
      ])))

-- `fromisoformat` is the one of datetime
module _ (fromisoformat : String → Result Datetime) where
  -- `_parse_datetime`: what is no text has no `replace` of texts
  unfoldable pub parse_datetime : Json → Reading Datetime
  unfolding replace_z
  parse_datetime (str value) = normalized (fromisoformat (replace_z value))
  parse_datetime (datetime t) = untyped
  parse_datetime _ = raises attribute_error

  -- `_to_order`
  unfoldable pub to_order : Fields → Reading ExternalOrder
  unfolding get
  to_order body = text "order_id" body >>= λ order_id. text "client_code" body >>= λ client_code.
      text "facility_code" body >>= λ facility_code.
      optional_text_of (get "zone_code" body) >>= λ zone_code.
      text "order_type" body >>= λ order_type. integer "priority" body >>= λ priority.
      text "status" body >>= λ status.
      item "source_address" body >>= address_of >>= λ source_address.
      item "destination_address" body >>= address_of >>= λ destination_address.
      number "total_weight_kg" body >>= λ total_weight_kg.
      number "total_volume_m3" body >>= λ total_volume_m3. lines_of (get "lines" body) >>= λ lines.
      item "created_at" body >>= parse_datetime >>= λ created_at.
      item "updated_at" body >>= parse_datetime >>= λ updated_at. done (record {
        order_id = order_id;
        client_code = client_code;
        facility_code = facility_code;
        zone_code = zone_code;
        order_type = order_type;
        priority = priority;
        status = status;
        source_address = source_address;
        destination_address = destination_address;
        total_weight_kg = total_weight_kg;
        total_volume_m3 = total_volume_m3;
        lines = lines;
        created_at = created_at;
        updated_at = updated_at;
      })

  -- an order that is no dict has no text keys
  unfoldable pub order_of : Json → Reading ExternalOrder
  order_of (obj body) = to_order body
  order_of _ = raises type_error

  -- the comprehension over the orders
  unfoldable pub orders_of_items : Items → Reading (List ExternalOrder)
  orders_of_items nil = done []
  orders_of_items (cons body rest) =
      let others = orders_of_items rest in order_of body >>= λ o. others >>= λ os. done (o ∷ os)

  unfoldable pub orders_of : Json → Reading (List ExternalOrder)
  orders_of (arr items) = orders_of_items items
  orders_of (str String.[]) = done []
  orders_of (obj end) = done []
  orders_of _ = raises type_error

  -- `get_order_by_id`
  unfoldable pub get_order_by_id :
      ClientSettings → Network → String → Trail → Reading ExternalOrder × Trail
  get_order_by_id settings net order_id t =
      read_body order_of
        (request settings net "GET" ("/api/v1/orders/" ++ order_id) none end none t)

  -- `get_orders_for_enrichment`
  unfoldable pub get_orders_for_enrichment :
      (Datetime → String)
      → ClientSettings
      → Network
      → Option Datetime
      → ℕ
      → Trail
      → Reading (List ExternalOrder) × Trail
  get_orders_for_enrichment isoformat settings net updated_since limit t = read_body orders_of (
      request settings net "GET" "/api/v1/orders" (some (query_of isoformat updated_since limit))
        end none t)
