-- ===== src/Application/Recording.antt =====
-- use_cases/persist_processing_result.py and use_cases/move_dead_letter.py: each writes in one
-- transaction.
pub mod Atomic
pub mod Attempts
pub mod Ported
pub mod Implemented
use Prim.Native.String.{◌++◌}
use rules_enrichment_daemon.Prelude.{
  ℕ, String, Bool, true, false, Option, none, some, if◌then◌else◌,
}
use rules_enrichment_daemon.Domain.Datetime.{Datetime}
use rules_enrichment_daemon.Domain.Json.{str, Fields, end, field}
use rules_enrichment_daemon.Domain.Json.Dict.{update}
use rules_enrichment_daemon.Domain.Processing.{
  ProcessingStatus, OutboxStatus, ProcessingAttempt, ProcessedOrder, OutboxMessage, DeadLetterItem,
}
use rules_enrichment_daemon.Exec.{Exec, pure, ◌>>=◌, ◌>>◌}
use rules_enrichment_daemon.Persistence.Session.{Session, commit}
use rules_enrichment_daemon.Persistence.Repositories.{
  save_attempt, save_processed, enqueue, save_dead_letter,
}
use rules_enrichment_daemon.Application.Environment.{Env, Action, in_uow}

-- the keyword arguments of `PersistProcessingResultUseCase.execute`
pub record ProcessingResult : Type 0 where
  pub order_id : String
  pub correlation_id : String
  pub attempt_number : ℕ
  pub enrichment_hash : String
  pub success : Bool
  pub now : Datetime
  pub event_payload : Fields

abbrev pub build_attempt : ProcessingResult → ProcessingAttempt
build_attempt r = record {
  order_id = r.order_id;
  correlation_id = r.correlation_id;
  attempt_number = r.attempt_number;
  status = if r.success then ProcessingStatus.success else ProcessingStatus.failed;
  started_at = r.now;
  finished_at = some r.now;
  error_message = if r.success then none else some "processing failed";
}

abbrev pub processed_of : ProcessingResult → ProcessedOrder
processed_of r = record {
  order_id = r.order_id;
  enrichment_hash = r.enrichment_hash;
  processed_at = r.now;
  correlation_id = r.correlation_id;
}

abbrev pub event_of : ProcessingResult → OutboxMessage
event_of r = record {
  message_id = "outbox-" ++ r.correlation_id ++ "-" ++ r.order_id;
  aggregate_type = "Order";
  aggregate_id = r.order_id;
  event_type = if r.success then "OrderEnrichmentSucceeded" else "OrderEnrichmentFailed";
  payload_json = r.event_payload;
  status = OutboxStatus.pending;
  created_at = r.now;
  published_at = none;
}

-- what the block writes before its commit
unfoldable pub write_result : ProcessingResult → Exec Session (Unit {0})
write_result r = do
  save_attempt (build_attempt r)
  if r.success then save_processed (processed_of r) else pure tt
  enqueue (event_of r)

-- `PersistProcessingResultUseCase.execute`
unfoldable pub persist : Env → ProcessingResult → Action (Unit {0})
persist env r = in_uow (do write_result r; commit env.database)

abbrev pub dead_letter_of : String → String → String → Fields → Datetime → DeadLetterItem
dead_letter_of order_id correlation_id reason payload now = record {
  order_id = order_id;
  correlation_id = correlation_id;
  reason = reason;
  payload_json = payload;
  created_at = now;
}

abbrev pub dead_letter_event : String → String → String → Fields → Datetime → OutboxMessage
dead_letter_event order_id correlation_id reason payload now = record {
  message_id = "outbox-dead-letter-" ++ correlation_id;
  aggregate_type = "Order";
  aggregate_id = order_id;
  event_type = "OrderMovedToDeadLetter";
  payload_json = update (field "reason" (str reason) end) payload;
  status = OutboxStatus.pending;
  created_at = now;
  published_at = none;
}

-- `MoveOrderToDeadLetterUseCase.execute`
unfoldable pub move_to_dead_letter :
    Env → String → String → String → Fields → Datetime → Action (Unit {0})
move_to_dead_letter env order_id correlation_id reason payload now = in_uow (do
  save_dead_letter (dead_letter_of order_id correlation_id reason payload now)
  enqueue (dead_letter_event order_id correlation_id reason payload now)
  commit env.database)
