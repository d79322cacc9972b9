-- ===== src/Migrations/Schema.antt =====
-- migrations/versions/0001_initial.py: the tables and indexes, and the calls of Alembic's operations.
-- What an operation does to the schema of the database is a parameter. That an `id` counts up by
-- itself is left out.
pub mod Undone
pub mod Widths
pub mod Declared
use rules_enrichment_daemon.Prelude.{ℕ, String, Bool, true, false, List, [], ◌∷◌}
use rules_enrichment_daemon.Domain.Errors.{Result, ok, err, ◌>>=◌}

pub data ColumnType : Type 0 where
  varchar : ℕ → ColumnType
  integer boolean json timestamp text : ColumnType

-- a column that may be null or not
pub data Column : Type 0 where
  column : String → ColumnType → Bool → Column

pub record Table : Type 0 where
  pub name : String
  pub columns : List Column
  pub primary_key : String

pub record Index : Type 0 where
  pub name : String
  pub table : String
  pub columns : List String

abbrev pub index : String → String → List String → Index
index name table columns = record { name = name; table = table; columns = columns }

pub data Operation : Type 0 where
  create_table : Table → Operation
  create_index : Index → Operation
  drop_index : String → String → Operation
  drop_table : String → Operation

-- a migration is one transaction: an operation that raises ends it
unfoldable pub run_all :
    {Schema : Type 0}
    → (Operation → Schema → Result Schema)
    → List Operation
    → Schema
    → Result Schema
run_all apply [] s = ok s
run_all apply (op ∷ ops) s = apply op s >>= λ s'. run_all apply ops s'

abbrev pub enrichment_rules : Table
enrichment_rules = record {
  name = "enrichment_rules";
  columns =
      column "rule_id" (varchar 80) false
      ∷ column "facility_code" (varchar 40) true
      ∷ column "client_code" (varchar 40) true
      ∷ column "zone_code" (varchar 40) true
      ∷ column "rule_type" (varchar 40) false
      ∷ column "priority" integer false
      ∷ column "is_active" boolean false
      ∷ column "conditions_json" json false
      ∷ column "enrichment_json" json false
      ∷ column "valid_from" timestamp true
      ∷ column "valid_to" timestamp true
      ∷ [];
  primary_key = "rule_id";
}

abbrev pub processing_attempts : Table
processing_attempts = record {
  name = "processing_attempts";
  columns =
      column "id" integer false
      ∷ column "order_id" (varchar 80) false
      ∷ column "correlation_id" (varchar 80) false
      ∷ column "attempt_number" integer false
      ∷ column "status" (varchar 20) false
      ∷ column "started_at" timestamp false
      ∷ column "finished_at" timestamp true
      ∷ column "error_message" text true
      ∷ [];
  primary_key = "id";
}

abbrev pub processed_orders : Table
processed_orders = record {
  name = "processed_orders";
  columns =
      column "order_id" (varchar 80) false
      ∷ column "enrichment_hash" (varchar 128) false
      ∷ column "processed_at" timestamp false
      ∷ column "correlation_id" (varchar 80) false
      ∷ [];
  primary_key = "order_id";
}

abbrev pub outbox_messages : Table
outbox_messages = record {
  name = "outbox_messages";
  columns =
      column "message_id" (varchar 120) false
      ∷ column "aggregate_type" (varchar 60) false
      ∷ column "aggregate_id" (varchar 80) false
      ∷ column "event_type" (varchar 80) false
      ∷ column "payload_json" json false
      ∷ column "status" (varchar 20) false
      ∷ column "created_at" timestamp false
      ∷ column "published_at" timestamp true
      ∷ [];
  primary_key = "message_id";
}

abbrev pub daemon_checkpoints : Table
daemon_checkpoints = record {
  name = "daemon_checkpoints";
  columns =
      column "checkpoint_name" (varchar 80) false
      ∷ column "checkpoint_value" (varchar 255) false
      ∷ column "updated_at" timestamp false
      ∷ [];
  primary_key = "checkpoint_name";
}

abbrev pub dead_letter_items : Table
dead_letter_items = record {
  name = "dead_letter_items";
  columns =
      column "id" integer false
      ∷ column "order_id" (varchar 80) false
      ∷ column "correlation_id" (varchar 80) false
      ∷ column "reason" text false
      ∷ column "payload_json" json false
      ∷ column "created_at" timestamp false
      ∷ [];
  primary_key = "id";
}

abbrev pub rule_audit_entries : Table
rule_audit_entries = record {
  name = "rule_audit_entries";
  columns =
      column "id" integer false
      ∷ column "order_id" (varchar 80) false
      ∷ column "rule_id" (varchar 80) false
      ∷ column "correlation_id" (varchar 80) false
      ∷ column "matched" boolean false
      ∷ column "created_at" timestamp false
      ∷ [];
  primary_key = "id";
}

-- `upgrade`
abbrev pub upgrade : List Operation
upgrade =
    create_table enrichment_rules
    ∷ create_index (index "ix_enrichment_rules_client_code" "enrichment_rules" ("client_code" ∷ []))
    ∷ create_index
        (index "ix_enrichment_rules_facility_code" "enrichment_rules" ("facility_code" ∷ []))
    ∷ create_index (index "ix_enrichment_rules_is_active" "enrichment_rules" ("is_active" ∷ []))
    ∷ create_index (index "ix_enrichment_rules_zone_code" "enrichment_rules" ("zone_code" ∷ []))
    ∷ create_index (
        index "ix_rules_scope" "enrichment_rules"
          ("client_code" ∷ "facility_code" ∷ "zone_code" ∷ []))
    ∷ create_table processing_attempts
    ∷ create_index (index "ix_processing_attempts_order_id" "processing_attempts" ("order_id" ∷ []))
    ∷ create_index (
        index "ix_processing_attempts_correlation_id" "processing_attempts" ("correlation_id" ∷ []))
    ∷ create_index (index "ix_processing_attempts_status" "processing_attempts" ("status" ∷ []))
    ∷ create_index (
        index "ix_attempt_order_attempt" "processing_attempts" ("order_id" ∷ "attempt_number" ∷ []))
    ∷ create_table processed_orders
    ∷ create_index
        (index "ix_processed_orders_correlation_id" "processed_orders" ("correlation_id" ∷ []))
    ∷ create_table outbox_messages
    ∷ create_index (index "ix_outbox_messages_aggregate_id" "outbox_messages" ("aggregate_id" ∷ []))
    ∷ create_index (index "ix_outbox_messages_created_at" "outbox_messages" ("created_at" ∷ []))
    ∷ create_index (index "ix_outbox_messages_event_type" "outbox_messages" ("event_type" ∷ []))
    ∷ create_index (index "ix_outbox_messages_status" "outbox_messages" ("status" ∷ []))
    ∷ create_index
        (index "ix_outbox_status_created" "outbox_messages" ("status" ∷ "created_at" ∷ []))
    ∷ create_table daemon_checkpoints
    ∷ create_table dead_letter_items
    ∷ create_index (index "ix_dead_letter_items_order_id" "dead_letter_items" ("order_id" ∷ []))
    ∷ create_index
        (index "ix_dead_letter_items_correlation_id" "dead_letter_items" ("correlation_id" ∷ []))
    ∷ create_table rule_audit_entries
    ∷ create_index (index "ix_rule_audit_entries_order_id" "rule_audit_entries" ("order_id" ∷ []))
    ∷ create_index (index "ix_rule_audit_entries_rule_id" "rule_audit_entries" ("rule_id" ∷ []))
    ∷ create_index
        (index "ix_rule_audit_entries_correlation_id" "rule_audit_entries" ("correlation_id" ∷ []))
    ∷ []

-- `downgrade`
abbrev pub downgrade : List Operation
downgrade =
    drop_index "ix_rule_audit_entries_correlation_id" "rule_audit_entries"
    ∷ drop_index "ix_rule_audit_entries_rule_id" "rule_audit_entries"
    ∷ drop_index "ix_rule_audit_entries_order_id" "rule_audit_entries"
    ∷ drop_table "rule_audit_entries"
    ∷ drop_index "ix_dead_letter_items_correlation_id" "dead_letter_items"
    ∷ drop_index "ix_dead_letter_items_order_id" "dead_letter_items"
    ∷ drop_table "dead_letter_items"
    ∷ drop_table "daemon_checkpoints"
    ∷ drop_index "ix_outbox_status_created" "outbox_messages"
    ∷ drop_index "ix_outbox_messages_status" "outbox_messages"
    ∷ drop_index "ix_outbox_messages_event_type" "outbox_messages"
    ∷ drop_index "ix_outbox_messages_created_at" "outbox_messages"
    ∷ drop_index "ix_outbox_messages_aggregate_id" "outbox_messages"
    ∷ drop_table "outbox_messages"
    ∷ drop_index "ix_processed_orders_correlation_id" "processed_orders"
    ∷ drop_table "processed_orders"
    ∷ drop_index "ix_attempt_order_attempt" "processing_attempts"
    ∷ drop_index "ix_processing_attempts_status" "processing_attempts"
    ∷ drop_index "ix_processing_attempts_correlation_id" "processing_attempts"
    ∷ drop_index "ix_processing_attempts_order_id" "processing_attempts"
    ∷ drop_table "processing_attempts"
    ∷ drop_index "ix_rules_scope" "enrichment_rules"
    ∷ drop_index "ix_enrichment_rules_zone_code" "enrichment_rules"
    ∷ drop_index "ix_enrichment_rules_is_active" "enrichment_rules"
    ∷ drop_index "ix_enrichment_rules_facility_code" "enrichment_rules"
    ∷ drop_index "ix_enrichment_rules_client_code" "enrichment_rules"
    ∷ drop_table "enrichment_rules"
    ∷ []
