-- ===== src/Application/Environment.antt =====
-- The ports (application/ports/*.py), the clock, the ids and the world that the use cases change.
-- Everything outside the process answers by the number of the call, so it may answer differently
-- each time.
use rules_enrichment_daemon.Prelude.{ℕ, ◌+◌, String, Option, List}
use rules_enrichment_daemon.Domain.Errors.{
  Error, Result, ok, external_api_timeout, external_api_unavailable, rule_evaluation,
  invalid_rule_definition, enrichment_submission, database_persistence, dead_letter, runtime_error,
  operational_error, foreign,
}
use rules_enrichment_daemon.Domain.Datetime.{Datetime}
use rules_enrichment_daemon.Domain.Json.{Fields}
use rules_enrichment_daemon.Domain.Order.{ExternalOrder}
use rules_enrichment_daemon.Domain.Value.{Runtime}
use rules_enrichment_daemon.Exec.{Exec}
use rules_enrichment_daemon.Persistence.Models.{Tables}
use rules_enrichment_daemon.Persistence.Session.{Session, Database, with_uow}

pub record Env : Type 0 where
  pub runtime : Runtime
  pub database : Database
  -- `Clock.now` at its n-th reading
  pub clock : ℕ → Datetime
  -- `IdGenerator.new_id` at its n-th call
  pub ids : ℕ → String
  -- `ExternalWmsPort.submit_enrichment` at its n-th call
  pub submit : ℕ → String → Fields → String → Result (Unit {0})
  -- `ExternalWmsPort.get_orders_for_enrichment` at its n-th call
  pub fetch : ℕ → Option Datetime → ℕ → Result (List ExternalOrder)
  -- `OutboxSinkPort.publish` at its n-th call
  pub sink : ℕ → String → Fields → Result (Unit {0})

pub record Submission : Type 0 where
  pub order_id : String
  pub payload : Fields
  pub correlation_id : String

pub record Delivery : Type 0 where
  pub event_type : String
  pub payload : Fields

pub record World : Type 0 where
  pub tables : Tables
  pub clock_readings : ℕ
  pub ids_given : ℕ
  pub fetches : ℕ
  pub calls : ℕ
  -- the requests made to the external API and to the sink, whatever came of them
  pub submissions : List Submission
  pub deliveries : List Delivery

abbrev pub Action : Type 0 → Type 0
Action A = Exec World A

-- shared/clock/clock.py
unfoldable pub read_clock : Env → Action Datetime
read_clock env w =
    (ok (env.clock w.clock_readings), record w { clock_readings = w.clock_readings + 1 })

-- shared/ids/ids.py
unfoldable pub new_id : Env → Action String
new_id env w = (ok (env.ids w.ids_given), record w { ids_given = w.ids_given + 1 })

abbrev pub back_in : {A : Type 0} → World → Result A × Tables → Result A × World
back_in w (r, t) = (r, record w { tables = t })

-- a `with uow:` block
unfoldable pub in_uow : {A : Type 0} → Exec Session A → Action A
unfolding with_uow
in_uow body w = back_in w (with_uow body w.tables)

-- `str(exc)`
abbrev pub error_text : Runtime → Error → String
error_text rt (external_api_timeout m) = m
error_text rt (external_api_unavailable m) = m
error_text rt (rule_evaluation m) = m
error_text rt (invalid_rule_definition m) = m
error_text rt (enrichment_submission m) = m
error_text rt (database_persistence m) = m
error_text rt (dead_letter m) = m
error_text rt (runtime_error m) = m
error_text rt (operational_error m) = m
error_text rt (foreign m) = m
error_text rt e = rt.message e
