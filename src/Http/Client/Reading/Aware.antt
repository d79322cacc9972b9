-- ===== src/Http/Client/Reading/Aware.antt =====
-- The time zones of the datetimes that are read.
use mathlib.Core.Path.{subst}
use rules_enrichment_daemon.Domain.Json.Dict.{get}
use rules_enrichment_daemon.Prelude.{
  ℕ, String, ◌≡◌, ◌≢◌, Option, none, List, All, Option-cases, inl, inr,
}
use rules_enrichment_daemon.Domain.Errors.{Result, ok, err}
use rules_enrichment_daemon.Domain.Datetime.{Datetime}
use rules_enrichment_daemon.Domain.Json.{
  Json, null, bool, int, float, str, datetime, arr, obj, Items, nil, cons, Fields, end, field,
}
use rules_enrichment_daemon.Domain.Order.{ExternalOrder}
use rules_enrichment_daemon.Http.Retry.{Response, Trail}
use rules_enrichment_daemon.Http.Client.{ClientSettings, Network}
use rules_enrichment_daemon.Http.Client.Reading.{
  with_zone, normalized, parse_datetime, to_order, order_of, orders_of_items, orders_of, read_body,
  get_orders_for_enrichment,
}
use rules_enrichment_daemon.Http.Client.Parts.{
  Reading, done, raises, untyped, ◌>>=◌, text, integer, number, item, optional_text_of, address_of,
  lines_of,
}

abbrev pub IsAware : Datetime → Type 0
IsAware t = t.offset ≢ none

abbrev pub HasAwareDates : ExternalOrder → Type 0
HasAwareDates o = IsAware o.created_at × IsAware o.updated_at

abbrev Satisfies : {A : Type 0} → (A → Type 0) → Reading A → Type 0
Satisfies P (done x) = P x
Satisfies P (raises e) = Unit
Satisfies P untyped = Unit

-- a predicate on what is read, if anything is
pub record Reads {A : Type 0} (P : A → Type 0) (m : Reading A) : Type 0 where
  pub holds : Satisfies P m

module _ {A B : Type 0} (Q : A → Type 0) (P : B → Type 0) where
  Satisfies-bind :
      (m : Reading A) (f : A → Reading B)
      → Satisfies Q m
      → ((x : A) → Q x → Reads P (f x))
      → Satisfies P (m >>= f)
  Satisfies-bind (done x) f q h = (h x q).holds
  Satisfies-bind (raises e) f q h = tt
  Satisfies-bind untyped f q h = tt

always : {A : Type 0} (m : Reading A) → Satisfies (λ x. Unit {0}) m
always (done x) = tt
always (raises e) = tt
always untyped = tt

module _ {A B : Type 0} {P : B → Type 0} (m : Reading A) (f : A → Reading B) where
  Reads-bind : ((x : A) → Reads P (f x)) → Reads P (m >>= f)
  Reads-bind h = record { holds = Satisfies-bind (λ x. Unit {0}) P m f (always m) (λ x _. h x) }

  Reads-bind_if :
      (Q : A → Type 0) → Satisfies Q m → ((x : A) → Q x → Reads P (f x)) → Reads P (m >>= f)
  Reads-bind_if Q q h = record { holds = Satisfies-bind Q P m f q h }

with_zone-IsAware : (t : Datetime) → IsAware (with_zone t)
with_zone-IsAware t = elim (Option-cases t.offset) [
  | inl naive ↦ rw naive (λ e. cc)
  | inr (o, aware) ↦ rw aware (λ e. cc)
]

normalized-IsAware : (x : Result Datetime) → Satisfies IsAware (normalized x)
normalized-IsAware (ok t) = with_zone-IsAware t
normalized-IsAware (err e) = tt

module _ (fromisoformat : String → Result Datetime) where
  parse_datetime-IsAware : (v : Json) → Satisfies IsAware (parse_datetime fromisoformat v)
  unfolding parse_datetime
  parse_datetime-IsAware (str s) = normalized-IsAware _
  parse_datetime-IsAware (datetime t) = tt
  parse_datetime-IsAware null = tt
  parse_datetime-IsAware (bool b) = tt
  parse_datetime-IsAware (int n) = tt
  parse_datetime-IsAware (float m k) = tt
  parse_datetime-IsAware (arr xs) = tt
  parse_datetime-IsAware (obj fs) = tt

  read_datetime :
      (key : String) (body : Fields)
      → Satisfies IsAware (item key body >>= parse_datetime fromisoformat)
  read_datetime key body =
      (Reads-bind (item key body) (parse_datetime fromisoformat)
        (λ v. record { holds = parse_datetime-IsAware v })).holds

  to_order-HasAwareDates : (body : Fields) → Reads HasAwareDates (to_order fromisoformat body)
  unfolding to_order
  to_order-HasAwareDates body = Reads-bind (text "order_id" body) _ λ a.
      Reads-bind (text "client_code" body) _ λ b. Reads-bind (text "facility_code" body) _ λ c.
        Reads-bind (optional_text_of (get "zone_code" body)) _ λ d.
          Reads-bind (text "order_type" body) _ λ e. Reads-bind (integer "priority" body) _ λ f.
            Reads-bind (text "status" body) _ λ g.
              Reads-bind (item "source_address" body >>= address_of) _ λ h.
                Reads-bind (item "destination_address" body >>= address_of) _ λ i.
                  Reads-bind (number "total_weight_kg" body) _ λ j.
                    Reads-bind (number "total_volume_m3" body) _ λ k.
                      Reads-bind (lines_of (get "lines" body)) _ λ l.
                        Reads-bind_if (item "created_at" body >>= parse_datetime fromisoformat) _
                          IsAware (read_datetime "created_at" body)
                          λ created aware.
                            Reads-bind_if (item "updated_at" body >>= parse_datetime fromisoformat)
                              _ IsAware (read_datetime "updated_at" body)
                              λ updated aware'. record { holds = (aware, aware') }

  order_of-HasAwareDates : (v : Json) → Reads HasAwareDates (order_of fromisoformat v)
  unfolding order_of
  order_of-HasAwareDates (obj body) = to_order-HasAwareDates body
  order_of-HasAwareDates (str s) = record { holds = tt }
  order_of-HasAwareDates (datetime t) = record { holds = tt }
  order_of-HasAwareDates null = record { holds = tt }
  order_of-HasAwareDates (bool b) = record { holds = tt }
  order_of-HasAwareDates (int n) = record { holds = tt }
  order_of-HasAwareDates (float m k) = record { holds = tt }
  order_of-HasAwareDates (arr xs) = record { holds = tt }

  orders_of_items-HasAwareDates :
      (items : Items) → Reads (All HasAwareDates) (orders_of_items fromisoformat items)
  unfolding orders_of_items
  orders_of_items-HasAwareDates nil = record { holds = tt }
  orders_of_items-HasAwareDates (cons v rest) =
      Reads-bind_if (order_of fromisoformat v) _ HasAwareDates (order_of-HasAwareDates v).holds
        λ o dates.
          Reads-bind_if (orders_of_items fromisoformat rest) _ (All HasAwareDates)
            (orders_of_items-HasAwareDates rest).holds λ os all. record { holds = (dates, all) }

  orders_of-HasAwareDates : (v : Json) → Reads (All HasAwareDates) (orders_of fromisoformat v)
  unfolding orders_of
  orders_of-HasAwareDates (arr items) = orders_of_items-HasAwareDates items
  orders_of-HasAwareDates (str String.[]) = record { holds = tt }
  orders_of-HasAwareDates (str (String.◌∷◌ c s)) = record { holds = tt }
  orders_of-HasAwareDates (obj end) = record { holds = tt }
  orders_of-HasAwareDates (obj (field k v fs)) = record { holds = tt }
  orders_of-HasAwareDates (datetime t) = record { holds = tt }
  orders_of-HasAwareDates null = record { holds = tt }
  orders_of-HasAwareDates (bool b) = record { holds = tt }
  orders_of-HasAwareDates (int n) = record { holds = tt }
  orders_of-HasAwareDates (float m k) = record { holds = tt }

  read_body-HasAwareDates :
      (x : Result Response × Trail)
      → Satisfies (All HasAwareDates) (read_body (orders_of fromisoformat) x).0
  read_body-HasAwareDates (ok r, t) = (orders_of-HasAwareDates r.body).holds
  read_body-HasAwareDates (err e, t) = tt

  -- Whatever the API answers, every order that is read has a creation and an update time with a time
  -- zone.
  pub get_orders_for_enrichment-HasAwareDates :
      (print : Datetime → String) (settings : ClientSettings) (net : Network)
      → (updated_since : Option Datetime) (limit : ℕ) (t : Trail) → (os : List ExternalOrder)
      → (get_orders_for_enrichment fromisoformat print settings net updated_since limit t).0
        ≡ done os
      → All HasAwareDates os
  unfolding get_orders_for_enrichment
  get_orders_for_enrichment-HasAwareDates print settings net updated_since limit t os reads =
      subst (Satisfies (All HasAwareDates)) reads (read_body-HasAwareDates _)
