-- ===== src/Persistence/Models.antt =====
-- infrastructure/db/models.py: the rows of the tables that the daemon reads or writes. Enumerations
-- are stored as texts. The tables `daemon_checkpoints` and `rule_audit_entries` are never used.
use rules_enrichment_daemon.Prelude.{ℕ, String, Bool, Option, List, [], ◌++◌}
use rules_enrichment_daemon.Prelude.Int.{ℤ}
use rules_enrichment_daemon.Domain.Datetime.{Datetime}
use rules_enrichment_daemon.Domain.Json.{Fields}

pub record EnrichmentRuleModel : Type 0 where
  pub rule_id : String
  pub facility_code : Option String
  pub client_code : Option String
  pub zone_code : Option String
  pub rule_type : String
  pub priority : ℤ
  pub is_active : Bool
  pub conditions_json : Fields
  pub enrichment_json : Fields
  pub valid_from : Option Datetime
  pub valid_to : Option Datetime

pub record ProcessingAttemptModel : Type 0 where
  pub order_id : String
  pub correlation_id : String
  pub attempt_number : ℕ
  pub status : String
  pub started_at : Datetime
  pub finished_at : Option Datetime
  pub error_message : Option String

pub record ProcessedOrderModel : Type 0 where
  pub order_id : String
  pub enrichment_hash : String
  pub processed_at : Datetime
  pub correlation_id : String

pub record OutboxMessageModel : Type 0 where
  pub message_id : String
  pub aggregate_type : String
  pub aggregate_id : String
  pub event_type : String
  pub payload_json : Fields
  pub status : String
  pub created_at : Datetime
  pub published_at : Option Datetime

pub record DeadLetterItemModel : Type 0 where
  pub order_id : String
  pub correlation_id : String
  pub reason : String
  pub payload_json : Fields
  pub created_at : Datetime

pub record Tables : Type 0 where
  pub enrichment_rules : List EnrichmentRuleModel
  pub processing_attempts : List ProcessingAttemptModel
  pub processed_orders : List ProcessedOrderModel
  pub outbox_messages : List OutboxMessageModel
  pub dead_letter_items : List DeadLetterItemModel

abbrev pub no_rows : Tables
no_rows = record {
  enrichment_rules = [];
  processing_attempts = [];
  processed_orders = [];
  outbox_messages = [];
  dead_letter_items = [];
}

-- the rows of both
abbrev pub with_rows : Tables → Tables → Tables
with_rows a b = record {
  enrichment_rules = a.enrichment_rules ++ b.enrichment_rules;
  processing_attempts = a.processing_attempts ++ b.processing_attempts;
  processed_orders = a.processed_orders ++ b.processed_orders;
  outbox_messages = a.outbox_messages ++ b.outbox_messages;
  dead_letter_items = a.dead_letter_items ++ b.dead_letter_items;
}
