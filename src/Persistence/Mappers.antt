-- ===== src/Persistence/Mappers.antt =====
-- infrastructure/repositories/mappers.py: rows to entities, and the rows that the repositories
-- build from entities.
use rules_enrichment_daemon.Prelude.{String, ◌≡◌, refl, str_eq, if◌then◌else◌}
use rules_enrichment_daemon.Domain.Errors.{Result, ok, err, ◌>>=◌, value_error}
use rules_enrichment_daemon.Domain.Rule.{EnrichmentRule}
use rules_enrichment_daemon.Domain.Processing.{
  ProcessingStatus, OutboxStatus, ProcessedOrder, ProcessingAttempt, OutboxMessage, DeadLetterItem,
}
use rules_enrichment_daemon.Persistence.Models.{
  EnrichmentRuleModel, ProcessingAttemptModel, ProcessedOrderModel, OutboxMessageModel,
  DeadLetterItemModel,
}

-- `status.value`
abbrev pub processing_text : ProcessingStatus → String
processing_text ProcessingStatus.pending = "PENDING"
processing_text ProcessingStatus.success = "SUCCESS"
processing_text ProcessingStatus.failed = "FAILED"
processing_text ProcessingStatus.dead_letter = "DEAD_LETTER"

abbrev pub outbox_text : OutboxStatus → String
outbox_text OutboxStatus.pending = "PENDING"
outbox_text OutboxStatus.published = "PUBLISHED"
outbox_text OutboxStatus.failed = "FAILED"

-- `ProcessingStatus(text)`
unfoldable pub processing_status : String → Result ProcessingStatus
processing_status s =
    if str_eq s "PENDING"
    then ok ProcessingStatus.pending
    else if str_eq s "SUCCESS"
    then ok ProcessingStatus.success
    else if str_eq s "FAILED"
    then ok ProcessingStatus.failed
    else if str_eq s "DEAD_LETTER"
    then ok ProcessingStatus.dead_letter
    else err value_error

-- `OutboxStatus(text)`
unfoldable pub outbox_status : String → Result OutboxStatus
outbox_status s =
    if str_eq s "PENDING"
    then ok OutboxStatus.pending
    else if str_eq s "PUBLISHED"
    then ok OutboxStatus.published
    else if str_eq s "FAILED"
    then ok OutboxStatus.failed
    else err value_error

unfoldable pub to_rule : EnrichmentRuleModel → EnrichmentRule
to_rule m = record {
  rule_id = m.rule_id;
  facility_code = m.facility_code;
  client_code = m.client_code;
  zone_code = m.zone_code;
  rule_type = m.rule_type;
  priority = m.priority;
  is_active = m.is_active;
  conditions_json = m.conditions_json;
  enrichment_json = m.enrichment_json;
  valid_from = m.valid_from;
  valid_to = m.valid_to;
}

-- the row that `upsert_many` writes
unfoldable pub rule_row : EnrichmentRule → EnrichmentRuleModel
rule_row r = record {
  rule_id = r.rule_id;
  facility_code = r.facility_code;
  client_code = r.client_code;
  zone_code = r.zone_code;
  rule_type = r.rule_type;
  priority = r.priority;
  is_active = r.is_active;
  conditions_json = r.conditions_json;
  enrichment_json = r.enrichment_json;
  valid_from = r.valid_from;
  valid_to = r.valid_to;
}

unfoldable pub to_attempt : ProcessingAttemptModel → Result ProcessingAttempt
to_attempt m = do
  status ← processing_status m.status
  ok (record {
    order_id = m.order_id;
    correlation_id = m.correlation_id;
    attempt_number = m.attempt_number;
    status = status;
    started_at = m.started_at;
    finished_at = m.finished_at;
    error_message = m.error_message;
  })

-- the row that `attempts.save` adds
unfoldable pub attempt_row : ProcessingAttempt → ProcessingAttemptModel
attempt_row a = record {
  order_id = a.order_id;
  correlation_id = a.correlation_id;
  attempt_number = a.attempt_number;
  status = processing_text a.status;
  started_at = a.started_at;
  finished_at = a.finished_at;
  error_message = a.error_message;
}

unfoldable pub to_processed : ProcessedOrderModel → ProcessedOrder
to_processed m = record {
  order_id = m.order_id;
  enrichment_hash = m.enrichment_hash;
  processed_at = m.processed_at;
  correlation_id = m.correlation_id;
}

-- the row that `processed_orders.save` leaves
unfoldable pub processed_row : ProcessedOrder → ProcessedOrderModel
processed_row p = record {
  order_id = p.order_id;
  enrichment_hash = p.enrichment_hash;
  processed_at = p.processed_at;
  correlation_id = p.correlation_id;
}

unfoldable pub to_outbox : OutboxMessageModel → Result OutboxMessage
to_outbox m = do
  status ← outbox_status m.status
  ok (record {
    message_id = m.message_id;
    aggregate_type = m.aggregate_type;
    aggregate_id = m.aggregate_id;
    event_type = m.event_type;
    payload_json = m.payload_json;
    status = status;
    created_at = m.created_at;
    published_at = m.published_at;
  })

-- the row that `outbox.enqueue` adds
unfoldable pub outbox_row : OutboxMessage → OutboxMessageModel
outbox_row m = record {
  message_id = m.message_id;
  aggregate_type = m.aggregate_type;
  aggregate_id = m.aggregate_id;
  event_type = m.event_type;
  payload_json = m.payload_json;
  status = outbox_text m.status;
  created_at = m.created_at;
  published_at = m.published_at;
}

unfoldable pub to_dead_letter : DeadLetterItemModel → DeadLetterItem
to_dead_letter m = record {
  order_id = m.order_id;
  correlation_id = m.correlation_id;
  reason = m.reason;
  payload_json = m.payload_json;
  created_at = m.created_at;
}

-- the row that `dead_letter.save` adds
unfoldable pub dead_letter_row : DeadLetterItem → DeadLetterItemModel
dead_letter_row d = record {
  order_id = d.order_id;
  correlation_id = d.correlation_id;
  reason = d.reason;
  payload_json = d.payload_json;
  created_at = d.created_at;
}

attempt-status : (s : ProcessingStatus) → processing_status (processing_text s) ≡ ok s
unfolding processing_status
attempt-status ProcessingStatus.pending = refl
attempt-status _ = refl

outbox-status : (s : OutboxStatus) → outbox_status (outbox_text s) ≡ ok s
unfolding outbox_status
outbox-status OutboxStatus.pending = refl
outbox-status _ = refl

-- An attempt reads back from its row as it was saved, whatever its status.
pub to_attempt-attempt_row : (a : ProcessingAttempt) → to_attempt (attempt_row a) ≡ ok a
unfolding to_attempt attempt_row
to_attempt-attempt_row a = rw (attempt-status a.status)

-- A message reads back from its row as it was enqueued, whatever its status.
pub to_outbox-outbox_row : (m : OutboxMessage) → to_outbox (outbox_row m) ≡ ok m
unfolding to_outbox outbox_row
to_outbox-outbox_row m = rw (outbox-status m.status)
