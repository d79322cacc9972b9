-- ===== src/Application/ProcessOrder.antt =====
-- use_cases/process_order.py and use_cases/evaluate_rules.py.
pub mod Rules
pub mod DeadLetters
pub mod Idempotency
pub mod Submissions
pub mod Accepted
pub mod Outcome
use rules_enrichment_daemon.Prelude.{
  ℕ, String, Bool, true, false, not, Option, none, some, leb, str_eq, if◌then◌else◌,
}
use rules_enrichment_daemon.Domain.Errors.{Error, Result, enrichment_submission}
use rules_enrichment_daemon.Domain.Datetime.{Datetime}
use rules_enrichment_daemon.Domain.Json.{str, arr, obj, Fields, end, field, texts}
use rules_enrichment_daemon.Domain.Order.{ExternalOrder, asdict}
use rules_enrichment_daemon.Domain.Rule.{EnrichmentRule}
use rules_enrichment_daemon.Domain.Evaluation.{EnrichmentDecision, has_matches, evaluate}
use rules_enrichment_daemon.Domain.Processing.{ProcessedOrder}
use rules_enrichment_daemon.Domain.Value.{Runtime}
use rules_enrichment_daemon.Exec.{pure, raise, lift, try_except, ◌>>=◌, ◌>>◌}
use rules_enrichment_daemon.Prelude.{List}
use rules_enrichment_daemon.Persistence.Repositories.{get_next_attempt_number, get_by_order_id}
use rules_enrichment_daemon.Application.Environment.{Env, Action, new_id, in_uow, error_text}
use rules_enrichment_daemon.Application.Payload.{build_payload, submit_enrichment, compute_hash}
use rules_enrichment_daemon.Application.Recording.{ProcessingResult, persist, move_to_dead_letter}

-- `EvaluateRulesUseCase.execute`
abbrev pub evaluate_rules :
    Runtime → ExternalOrder → List EnrichmentRule → Datetime → Result EnrichmentDecision
evaluate_rules rt order rules now = evaluate rt order rules now

-- the settings that the use cases are built with
pub record ProcessSettings : Type 0 where
  pub source_system : String
  pub enrichment_version : ℕ
  pub max_processing_attempts : ℕ

-- what `execute` knows once the hash is computed
pub record Job : Type 0 where
  pub order : ExternalOrder
  pub now : Datetime
  pub correlation_id : String
  pub attempt_number : ℕ
  pub decision : EnrichmentDecision
  pub preview_hash : String

-- `processed and processed.enrichment_hash == preview_hash`
abbrev pub is_duplicate : Option ProcessedOrder → String → Bool
is_duplicate none hash = false
is_duplicate (some p) hash = str_eq p.enrichment_hash hash

abbrev pub result_of : Job → Bool → Fields → ProcessingResult
result_of job success event_payload = record {
  order_id = job.order.order_id;
  correlation_id = job.correlation_id;
  attempt_number = job.attempt_number;
  enrichment_hash = job.preview_hash;
  success = success;
  now = job.now;
  event_payload = event_payload;
}

abbrev pub no_rules_event : Job → Fields
no_rules_event job =
    field "event" (str "NoRulesMatched") (field "order_id" (str job.order.order_id) end)

abbrev pub succeeded_event : Job → Fields
succeeded_event job = field "event" (str "OrderEnrichmentSucceeded") (
    field "order_id" (str job.order.order_id)
      (field "rules" (arr (texts job.decision.matched_rules)) end))

abbrev pub failed_event : Env → Job → Error → Fields
failed_event env job e =
    field "event" (str "OrderEnrichmentFailed") (
      field "order_id" (str job.order.order_id)
        (field "error" (str (error_text env.runtime e)) end))

-- the `try` block
unfoldable pub submit_and_persist : Env → ProcessSettings → Job → Action (Bool × String × Bool)
submit_and_persist env settings job = do
  submit_enrichment env job.order.order_id
      (build_payload settings.source_system settings.enrichment_version job.correlation_id
        job.decision)
      job.correlation_id
  persist env (result_of job true (succeeded_event job))
  pure (true, job.correlation_id, false)

-- the `if` of the `except` block
unfoldable pub give_up : Env → ProcessSettings → Job → Action (Unit {0})
give_up env settings job =
    if leb settings.max_processing_attempts job.attempt_number
    then move_to_dead_letter env job.order.order_id job.correlation_id "max attempts exceeded"
        (field "order" (obj (asdict job.order)) end) job.now
    else pure tt

-- the `except` block
unfoldable pub on_failure : Env → ProcessSettings → Job → Error → Action (Bool × String × Bool)
on_failure env settings job e = do
  persist env (result_of job false (failed_event env job e))
  give_up env settings job
  raise (enrichment_submission (error_text env.runtime e))

unfoldable pub enrich : Env → ProcessSettings → Job → Action (Bool × String × Bool)
enrich env settings job =
    try_except (submit_and_persist env settings job) (on_failure env settings job)

unfoldable pub record_no_match : Env → Job → Action (Bool × String × Bool)
record_no_match env job = do
  persist env (result_of job true (no_rules_event job))
  pure (true, job.correlation_id, false)

-- from the idempotency test on
unfoldable pub conclude :
    Env → ProcessSettings → Job → Option ProcessedOrder → Action (Bool × String × Bool)
conclude env settings job processed =
    if is_duplicate processed job.preview_hash
    then pure (true, job.correlation_id, true)
    else if not (has_matches job.decision)
    then record_no_match env job
    else enrich env settings job

-- `ProcessOrderForEnrichmentUseCase.execute`
unfoldable pub process_order :
    Env
    → ProcessSettings
    → ExternalOrder
    → List EnrichmentRule
    → Datetime
    → Action (Bool × String × Bool)
process_order env settings order rules now = do
  correlation_id ← new_id env
  attempt_number ← in_uow (get_next_attempt_number order.order_id)
  decision ← lift (evaluate_rules env.runtime order rules now)
  preview_hash ← lift (compute_hash env.runtime order decision.enriched_fields)
  processed ← in_uow (get_by_order_id order.order_id)
  conclude env settings
      (record {
        order = order;
        now = now;
        correlation_id = correlation_id;
        attempt_number = attempt_number;
        decision = decision;
        preview_hash = preview_hash;
      })
      processed
