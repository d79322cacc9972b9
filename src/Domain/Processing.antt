-- ===== src/Domain/Processing.antt =====
-- domain/enums/processing.py, and the entities that record the processing of an order:
-- processed_order.py, processing_attempt.py, outbox_message.py and dead_letter_item.py.
use rules_enrichment_daemon.Prelude.{ℕ, String, Option}
use rules_enrichment_daemon.Domain.Datetime.{Datetime}
use rules_enrichment_daemon.Domain.Json.{Fields}

pub data ProcessingStatus : Type 0 where
  pending success failed dead_letter : ProcessingStatus

pub data OutboxStatus : Type 0 where
  pending published failed : OutboxStatus

pub record ProcessedOrder : Type 0 where
  pub order_id : String
  pub enrichment_hash : String
  pub processed_at : Datetime
  pub correlation_id : String

pub record ProcessingAttempt : Type 0 where
  pub order_id : String
  pub correlation_id : String
  pub attempt_number : ℕ
  pub status : ProcessingStatus
  pub started_at : Datetime
  pub finished_at : Option Datetime
  pub error_message : Option String

pub record OutboxMessage : Type 0 where
  pub message_id : String
  pub aggregate_type : String
  pub aggregate_id : String
  pub event_type : String
  pub payload_json : Fields
  pub status : OutboxStatus
  pub created_at : Datetime
  pub published_at : Option Datetime

pub record DeadLetterItem : Type 0 where
  pub order_id : String
  pub correlation_id : String
  pub reason : String
  pub payload_json : Fields
  pub created_at : Datetime
