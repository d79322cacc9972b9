-- ===== src/Http/Client/Reading/RoundTrip.antt =====
-- Orders in the form in which the warehouse system sends them, and their reading.
use rules_enrichment_daemon.Prelude.{
  ℕ, String, ◌≡◌, refl, ◌∙◌, ap, Option, none, some, List, [], ◌∷◌, map, All,
}
use rules_enrichment_daemon.Domain.Errors.{Result, ok, err}
use rules_enrichment_daemon.Domain.Datetime.{Datetime}
use rules_enrichment_daemon.Domain.Json.{
  Json, int, str, arr, obj, Items, nil, cons, Fields, end, field,
}
use rules_enrichment_daemon.Domain.Json.Dict.{get, size}
use rules_enrichment_daemon.Domain.Order.{
  Address, Number, whole, dyadic, number_json, ExternalOrderLine, ExternalOrder, optional_text,
  address_dict, line_dict, lines_dict,
}
use rules_enrichment_daemon.Http.Retry.{Response, Trail}
use rules_enrichment_daemon.Http.Client.{ClientSettings, Network, request}
use rules_enrichment_daemon.Http.Client.Reading.{
  replace_z, with_zone, parse_datetime, to_order, order_of, orders_of_items, orders_of, read_body,
  get_orders_for_enrichment, query_of,
}
use rules_enrichment_daemon.Http.Client.Parts.{
  Reading, done, number_of, optional_text_of, address_of, address_of_fields, address_arguments,
  to_line, lines_of_items, lines_of,
}

-- an order as JSON: its fields, with datetimes as texts
abbrev pub wire : (Datetime → String) → ExternalOrder → Fields
wire isoformat o = field "order_id" (str o.order_id) (
    field "client_code" (str o.client_code) (
      field "facility_code" (str o.facility_code) (
        field "zone_code" (optional_text o.zone_code) (
          field "order_type" (str o.order_type) (
            field "priority" (int o.priority) (
              field "status" (str o.status) (
                field "source_address" (obj (address_dict o.source_address)) (
                  field "destination_address" (obj (address_dict o.destination_address)) (
                    field "total_weight_kg" (number_json o.total_weight_kg) (
                      field "total_volume_m3" (number_json o.total_volume_m3) (
                        field "lines" (arr (lines_dict o.lines)) (
                          field "created_at" (str (isoformat o.created_at))
                            (field "updated_at" (str (isoformat o.updated_at)) end)))))))))))))

abbrev pub wires : (Datetime → String) → List ExternalOrder → Items
wires isoformat [] = nil
wires isoformat (o ∷ os) = cons (obj (wire isoformat o)) (wires isoformat os)

-- the order with naive datetimes read as UTC
abbrev pub zoned : ExternalOrder → ExternalOrder
zoned o = record o { created_at = with_zone o.created_at; updated_at = with_zone o.updated_at }

number_of-number_json : (x : Number) → number_of (number_json x) ≡ done x
number_of-number_json (whole n) = refl
number_of-number_json (dyadic m k) = refl

optional_text_of-optional_text :
    (x : Option String) → optional_text_of (some (optional_text x)) ≡ done x
optional_text_of-optional_text none = refl
optional_text_of-optional_text (some s) = refl

address_of-address_dict : (a : Address) → address_of (obj (address_dict a)) ≡ done a
unfolding address_of_fields address_arguments address_dict size get
address_of-address_dict a = refl

to_line-line_dict : (l : ExternalOrderLine) → to_line (line_dict l) ≡ done l
unfolding to_line line_dict get
to_line-line_dict l =
    rw (number_of-number_json l.unit_weight_kg, number_of-number_json l.unit_volume_m3) refl

lines_of_items-lines_dict : (ls : List ExternalOrderLine) → lines_of_items (lines_dict ls) ≡ done ls
unfolding lines_of_items lines_dict
lines_of_items-lines_dict [] = refl
lines_of_items-lines_dict (l ∷ ls) = rw (to_line-line_dict l, lines_of_items-lines_dict ls) refl

pub read_body-ok :
    {A : Type 0} (read : Json → Reading A) (x : Result Response × Trail) {r : Response}
    → x.0 ≡ ok r
    → (read_body read x).0 ≡ read r.body
read_body-ok read (ok r, t) h = ap (λ (x : Result Response). (read_body read (x, t)).0) h
read_body-ok read (err e, t) h = cc

module _ (fromisoformat : String → Result Datetime) (isoformat : Datetime → String) where
  -- the text of the datetime reads as the datetime
  abbrev pub ReadsBack : Datetime → Type 0
  ReadsBack t = fromisoformat (replace_z (isoformat t)) ≡ ok t

  abbrev pub DatesReadBack : ExternalOrder → Type 0
  DatesReadBack o = ReadsBack o.created_at × ReadsBack o.updated_at

  to_order-wire :
      (o : ExternalOrder)
      → DatesReadBack o
      → to_order fromisoformat (wire isoformat o) ≡ done (zoned o)
  unfolding to_order parse_datetime get lines_of
  to_order-wire o dates =
      rw
        (
          optional_text_of-optional_text o.zone_code,
          address_of-address_dict o.source_address,
          address_of-address_dict o.destination_address,
          number_of-number_json o.total_weight_kg,
          number_of-number_json o.total_volume_m3,
          lines_of_items-lines_dict o.lines,
          dates.0,
          dates.1,
        )
        refl

  orders_of-wires :
      (os : List ExternalOrder)
      → All DatesReadBack os
      → orders_of fromisoformat (arr (wires isoformat os)) ≡ done (map zoned os)
  unfolding orders_of orders_of_items order_of
  orders_of-wires [] dates = refl
  orders_of-wires (o ∷ os) dates = rw (to_order-wire o dates.0, orders_of-wires os dates.1) refl

  -- A response whose body is the JSON of a list of orders is read as exactly these orders, in their
  -- order, with UTC for the datetimes that are naive, if `fromisoformat` reads the texts of their
  -- datetimes as these datetimes, once "Z" is replaced.
  pub get_orders_for_enrichment-wires :
      (print : Datetime → String) (settings : ClientSettings) (net : Network)
      → (updated_since : Option Datetime) (limit : ℕ) (t : Trail)
      → (r : Response) (os : List ExternalOrder)
      → (request settings net "GET" "/api/v1/orders"
          (some (query_of print updated_since limit))
          end
          none
          t).0
        ≡ ok r
      → r.body ≡ arr (wires isoformat os)
      → All DatesReadBack os
      → (get_orders_for_enrichment fromisoformat print settings net updated_since limit t).0
        ≡ done (map zoned os)
  unfolding get_orders_for_enrichment
  get_orders_for_enrichment-wires print settings net updated_since limit t r os answered is_list
        dates =
      read_body-ok (orders_of fromisoformat) _ answered
      ∙ ap (orders_of fromisoformat) is_list
      ∙ orders_of-wires os dates
