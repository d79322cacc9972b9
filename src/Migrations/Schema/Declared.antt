-- ===== src/Migrations/Schema/Declared.antt =====
-- infrastructure/db/models.py as declarations, and what the first migration creates.
use Prim.Native.String.{◌++◌}
use rules_enrichment_daemon.Prelude as Prelude
use rules_enrichment_daemon.Prelude.{
  String, Bool, true, false, ◌&&◌, ◌||◌, ◌≡◌, refl, str_eq, List, [], ◌∷◌, map, if◌then◌else◌,
}
use rules_enrichment_daemon.Migrations.Schema.{
  ColumnType, varchar, integer, boolean, json, timestamp, text, Column, column, Table, Index, index,
  Operation, create_table, create_index, upgrade,
}

-- `mapped_column(...)`: name, type, whether it may be null, whether it has an index
pub data Declared : Type 0 where
  declared : String → ColumnType → Bool → Bool → Declared

pub record Model : Type 0 where
  pub tablename : String
  pub declared_columns : List Declared
  pub key : String

abbrev pub enrichment_rule_model : Model
enrichment_rule_model = record {
  tablename = "enrichment_rules";
  declared_columns =
      declared "rule_id" (varchar 80) false false
      ∷ declared "facility_code" (varchar 40) true true
      ∷ declared "client_code" (varchar 40) true true
      ∷ declared "zone_code" (varchar 40) true true
      ∷ declared "rule_type" (varchar 40) false false
      ∷ declared "priority" integer false false
      ∷ declared "is_active" boolean false true
      ∷ declared "conditions_json" json false false
      ∷ declared "enrichment_json" json false false
      ∷ declared "valid_from" timestamp true false
      ∷ declared "valid_to" timestamp true false
      ∷ [];
  key = "rule_id";
}

abbrev pub processing_attempt_model : Model
processing_attempt_model = record {
  tablename = "processing_attempts";
  declared_columns =
      declared "id" integer false false
      ∷ declared "order_id" (varchar 80) false true
      ∷ declared "correlation_id" (varchar 80) false true
      ∷ declared "attempt_number" integer false false
      ∷ declared "status" (varchar 20) false true
      ∷ declared "started_at" timestamp false false
      ∷ declared "finished_at" timestamp true false
      ∷ declared "error_message" text true false
      ∷ [];
  key = "id";
}

abbrev pub processed_order_model : Model
processed_order_model = record {
  tablename = "processed_orders";
  declared_columns =
      declared "order_id" (varchar 80) false false
      ∷ declared "enrichment_hash" (varchar 128) false false
      ∷ declared "processed_at" timestamp false false
      ∷ declared "correlation_id" (varchar 80) false true
      ∷ [];
  key = "order_id";
}

abbrev pub outbox_message_model : Model
outbox_message_model = record {
  tablename = "outbox_messages";
  declared_columns =
      declared "message_id" (varchar 120) false false
      ∷ declared "aggregate_type" (varchar 60) false false
      ∷ declared "aggregate_id" (varchar 80) false true
      ∷ declared "event_type" (varchar 80) false true
      ∷ declared "payload_json" json false false
      ∷ declared "status" (varchar 20) false true
      ∷ declared "created_at" timestamp false true
      ∷ declared "published_at" timestamp true false
      ∷ [];
  key = "message_id";
}

abbrev pub daemon_checkpoint_model : Model
daemon_checkpoint_model = record {
  tablename = "daemon_checkpoints";
  declared_columns =
      declared "checkpoint_name" (varchar 80) false false
      ∷ declared "checkpoint_value" (varchar 255) false false
      ∷ declared "updated_at" timestamp false false
      ∷ [];
  key = "checkpoint_name";
}

abbrev pub dead_letter_item_model : Model
dead_letter_item_model = record {
  tablename = "dead_letter_items";
  declared_columns =
      declared "id" integer false false
      ∷ declared "order_id" (varchar 80) false true
      ∷ declared "correlation_id" (varchar 80) false true
      ∷ declared "reason" text false false
      ∷ declared "payload_json" json false false
      ∷ declared "created_at" timestamp false false
      ∷ [];
  key = "id";
}

abbrev pub rule_audit_entry_model : Model
rule_audit_entry_model = record {
  tablename = "rule_audit_entries";
  declared_columns =
      declared "id" integer false false
      ∷ declared "order_id" (varchar 80) false true
      ∷ declared "rule_id" (varchar 80) false true
      ∷ declared "correlation_id" (varchar 80) false true
      ∷ declared "matched" boolean false false
      ∷ declared "created_at" timestamp false false
      ∷ [];
  key = "id";
}

-- `Base.metadata` in the order of the classes
abbrev pub models : List Model
models =
    enrichment_rule_model ∷ processing_attempt_model ∷ processed_order_model ∷ outbox_message_model
    ∷ daemon_checkpoint_model ∷ dead_letter_item_model ∷ rule_audit_entry_model ∷ []

-- the three `Index(...)` at the end
abbrev pub composite_indexes : List Index
composite_indexes =
    index "ix_rules_scope" "enrichment_rules" ("client_code" ∷ "facility_code" ∷ "zone_code" ∷ [])
    ∷ index "ix_attempt_order_attempt" "processing_attempts" ("order_id" ∷ "attempt_number" ∷ [])
    ∷ index "ix_outbox_status_created" "outbox_messages" ("status" ∷ "created_at" ∷ [])
    ∷ []

abbrev column_of : Declared → Column
column_of (declared name type nullable indexed) = column name type nullable

abbrev table_of : Model → Table
table_of m = record {
  name = m.tablename;
  columns = map column_of m.declared_columns;
  primary_key = m.key;
}

-- SQLAlchemy's name of the index of a column
abbrev indexes_of : String → List Declared → List Index
indexes_of table [] = []
indexes_of table (declared name type nullable indexed ∷ rest) =
    if indexed
    then index ("ix_" ++ table ++ "_" ++ name) table (name ∷ []) ∷ indexes_of table rest
    else indexes_of table rest

abbrev declared_indexes : List Model → List Index
declared_indexes [] = composite_indexes
declared_indexes (m ∷ ms) =
    Prelude.◌++◌ (indexes_of m.tablename m.declared_columns) (declared_indexes ms)

abbrev created_tables : List Operation → List Table
created_tables [] = []
created_tables (create_table t ∷ ops) = t ∷ created_tables ops
created_tables (_ ∷ ops) = created_tables ops

abbrev created_indexes : List Operation → List Index
created_indexes [] = []
created_indexes (create_index i ∷ ops) = i ∷ created_indexes ops
created_indexes (_ ∷ ops) = created_indexes ops

abbrev same_texts : List String → List String → Bool
same_texts [] [] = true
same_texts (x ∷ xs) (y ∷ ys) = str_eq x y && same_texts xs ys
same_texts _ _ = false

abbrev same_index : Index → Index → Bool
same_index i j = str_eq i.name j.name && str_eq i.table j.table && same_texts i.columns j.columns

abbrev is_among : Index → List Index → Bool
is_among i [] = false
is_among i (j ∷ js) = same_index i j || is_among i js

abbrev within : List Index → List Index → Bool
within [] js = true
within (i ∷ is) js = is_among i js && within is js

-- The first migration creates the tables that the models declare, column by column, and the indexes
-- that they declare, no more and no fewer.
upgrade-models :
    (created_tables upgrade ≡ map table_of models)
    × (within (created_indexes upgrade) (declared_indexes models) ≡ true)
    × (within (declared_indexes models) (created_indexes upgrade) ≡ true)
upgrade-models = (refl, refl, refl)
