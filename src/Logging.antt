-- ===== src/Logging.antt =====
-- shared/observability/context.py and shared/result/result.py; Handlers has shared/logging.
pub mod Handlers
use rules_enrichment_daemon.Prelude.{
  String, ◌≡◌, Bool, true, false, Option, none, some, eq_iff, arith, if◌then◌else◌,
}
use rules_enrichment_daemon.Prelude.Int.{ℤ}
use rules_enrichment_daemon.Domain.Json.{Json, null, int, str, is_none, Fields, end, field}
use rules_enrichment_daemon.Domain.Json.Dict.{get, update}
use rules_enrichment_daemon.Domain.Order.{optional_text}

pub record LogContext : Type 0 where
  pub daemon_run_id : String
  pub correlation_id : Option String
  pub order_id : Option String
  pub client_code : Option String
  pub facility_code : Option String
  pub attempt : Option ℤ
  pub trace_id : Option String
  pub transaction_id : Option String
  pub extras : Fields

abbrev optional_int : Option ℤ → Json
optional_int none = null
optional_int (some n) = int n

abbrev pub context_fields : LogContext → Fields
context_fields c = field "daemon.run_id" (str c.daemon_run_id) (
    field "correlation.id" (optional_text c.correlation_id) (
      field "order.id" (optional_text c.order_id) (
        field "client.code" (optional_text c.client_code) (
          field "facility.code" (optional_text c.facility_code) (
            field "attempt" (optional_int c.attempt) (
              field "trace.id" (optional_text c.trace_id)
                (field "transaction.id" (optional_text c.transaction_id) end)))))))

-- `{k: v for k, v in data.items() if v is not None}`
unfoldable pub without_none : Fields → Fields
without_none end = end
without_none (field k v fs) = if is_none v then without_none fs else field k v (without_none fs)

get-without_none :
    (key : String) (d : Fields) {v : Json} → get key (without_none d) ≡ some v → is_none v ≡ false
unfolding get without_none
get-without_none key end h = cc
get-without_none key (field k w fs) {v = v} h =
    ground (arith, eq_iff k key, get-without_none key fs {v = v}, h)

-- `LogContext.to_extra`
unfoldable pub to_extra : LogContext → Fields → Fields
unfolding without_none
to_extra c kwargs = without_none (update (update (context_fields c) c.extras) kwargs)

-- `Result`: both fields may be None
pub record ResultPair (T E : Type 0) : Type 0 where
  pub value : Option T
  pub error : Option E

module _ {T E : Type 0} where
  unfoldable pub is_error : ResultPair T E → Bool
  is_error r = elim r.error [ none ↦ false | some e ↦ true ]

  unfoldable pub is_ok : ResultPair T E → Bool
  is_ok r = elim r.error [ none ↦ true | some e ↦ false ]

  -- `Result.ok` and `Result.fail`
  abbrev pub succeed : T → ResultPair T E
  succeed value = record { value = some value; error = none }

  abbrev pub fail : E → ResultPair T E
  fail error = record { value = none; error = some error }

-- An entry of what `to_extra` gives is not None.
to_extra-get :
    (key : String) (c : LogContext) (kwargs : Fields) {v : Json}
    → get key (to_extra c kwargs) ≡ some v
    → is_none v ≡ false
unfolding to_extra
to_extra-get key c kwargs h =
    get-without_none key (update (update (context_fields c) c.extras) kwargs) h
