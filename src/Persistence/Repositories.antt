-- ===== src/Persistence/Repositories.antt =====
-- infrastructure/repositories/sqlalchemy/*.py: the repositories, as actions on a session.
use rules_enrichment_daemon.Prelude.{
  ℕ, zero, suc, ◌+◌, max, String, Bool, true, false, not, ◌&&◌, ◌||◌, Option, none, some, List, [],
  ◌∷◌, ◌++◌, map, take, filter, str_eq, if◌then◌else◌,
}
pub mod Rows
pub mod Upserts
pub mod Listed
use mathlib.Core.Option
use rules_enrichment_daemon.Prelude.Sort.{sort_by}
use rules_enrichment_daemon.Domain.Errors.{Result, ok, err}
use rules_enrichment_daemon.Domain.Errors as Errors
use rules_enrichment_daemon.Domain.Datetime.{Datetime, instant, is_before}
use rules_enrichment_daemon.Domain.Rule.{EnrichmentRule}
use rules_enrichment_daemon.Domain.Processing.{
  ProcessedOrder, ProcessingAttempt, OutboxMessage, DeadLetterItem,
}
use rules_enrichment_daemon.Exec.{Exec, pure, lift, gets, modify, ◌>>=◌, ◌>>◌}
use rules_enrichment_daemon.Persistence.Models.{
  EnrichmentRuleModel, ProcessingAttemptModel, ProcessedOrderModel, OutboxMessageModel, Tables,
}
use rules_enrichment_daemon.Persistence.Mappers.{
  to_rule, rule_row, attempt_row, to_processed, processed_row, to_outbox, outbox_row,
  dead_letter_row,
}
use rules_enrichment_daemon.Persistence.Session.{Session}

-- `session.get` on a table: the row of a primary key
unfoldable pub find_row : {A : Type 0} → (A → String) → String → List A → Option A
find_row id key [] = none
find_row id key (row ∷ rows) = if str_eq (id row) key then some row else find_row id key rows

-- the table after a change to the loaded row of a primary key
unfoldable pub change_row : {A : Type 0} → (A → String) → String → (A → A) → List A → List A
change_row id key change [] = []
change_row id key change (row ∷ rows) =
    if str_eq (id row) key then change row ∷ rows else row ∷ change_row id key change rows

-- rule_repository_sqlalchemy.py

-- `or_(column == code, column.is_(None))`, asked only for a code that is truthy
abbrev pub in_scope : Option String → Option String → Bool
in_scope none column = true
in_scope (some String.[]) column = true
in_scope (some code) none = true
in_scope (some code) (some c) = str_eq c code

-- `or_(valid_from.is_(None), valid_from <= now)`
abbrev pub has_started : Option Datetime → Datetime → Bool
has_started none now = true
has_started (some from) now = not (is_before now from)

-- `or_(valid_to.is_(None), valid_to >= now)`
abbrev pub has_not_ended : Option Datetime → Datetime → Bool
has_not_ended none now = true
has_not_ended (some to) now = not (is_before to now)

unfoldable pub is_listed :
    Datetime → Option String → Option String → Option String → EnrichmentRuleModel → Bool
is_listed now client_code facility_code zone_code m =
    m.is_active
    && has_started m.valid_from now
    && has_not_ended m.valid_to now
    && in_scope client_code m.client_code
    && in_scope facility_code m.facility_code
    && in_scope zone_code m.zone_code

-- the query on the stored rows; rules of one priority come in the order of the table
unfoldable pub select_rules :
    Datetime
    → Option String
    → Option String
    → Option String
    → List EnrichmentRuleModel
    → List EnrichmentRule
select_rules now client_code facility_code zone_code rows =
    map to_rule
      (sort_by (λ m. m.priority) (filter (is_listed now client_code facility_code zone_code) rows))

unfoldable pub list_active_rules :
    Datetime → Option String → Option String → Option String → Exec Session (List EnrichmentRule)
list_active_rules now client_code facility_code zone_code =
    gets (λ s. select_rules now client_code facility_code zone_code s.loaded.enrichment_rules)

-- one round of `upsert_many`
abbrev upsert_row : EnrichmentRule → Option EnrichmentRuleModel → Session → Session
upsert_row rule none s = record s {
  added = record s.added { enrichment_rules = s.added.enrichment_rules ++ rule_row rule ∷ [] };
  bound = rule.conditions_json ∷ rule.enrichment_json ∷ s.bound;
}
upsert_row rule (some _) s = record s {
  loaded = record s.loaded {
    enrichment_rules =
        change_row (λ r. r.rule_id) rule.rule_id (λ _. rule_row rule) s.loaded.enrichment_rules;
  };
  bound = rule.conditions_json ∷ rule.enrichment_json ∷ s.bound;
}

unfoldable pub upsert : EnrichmentRule → Session → Session
upsert rule s = upsert_row rule (find_row (λ r. r.rule_id) rule.rule_id s.loaded.enrichment_rules) s

unfoldable pub upsert_many : List EnrichmentRule → Exec Session (Unit {0})
upsert_many [] = pure tt
upsert_many (rule ∷ rules) = modify (upsert rule) >> upsert_many rules

-- processing_attempt_repository_sqlalchemy.py

-- `max(attempt_number)` over the rows of an order, 0 where there is none
unfoldable pub max_attempt : String → List ProcessingAttemptModel → ℕ
max_attempt order_id [] = 0
max_attempt order_id (row ∷ rows) =
    let rest = max_attempt order_id rows in
    if str_eq row.order_id order_id then max row.attempt_number rest else rest

-- `int(current) + 1 if current else 1`
unfoldable pub get_next_attempt_number : String → Exec Session ℕ
get_next_attempt_number order_id = gets (λ s. max_attempt order_id s.loaded.processing_attempts + 1)

unfoldable pub save_attempt : ProcessingAttempt → Exec Session (Unit {0})
save_attempt attempt = modify λ s. record s {
  added = record s.added {
    processing_attempts = s.added.processing_attempts ++ attempt_row attempt ∷ [];
  };
}

-- processed_order_repository_sqlalchemy.py
unfoldable pub get_by_order_id : String → Exec Session (Option ProcessedOrder)
get_by_order_id order_id =
    gets
      λ s. Option.map to_processed (find_row (λ p. p.order_id) order_id s.loaded.processed_orders)

abbrev put_processed : ProcessedOrder → Option ProcessedOrderModel → Session → Session
put_processed p none s = record s {
  added = record s.added { processed_orders = s.added.processed_orders ++ processed_row p ∷ [] };
}
put_processed p (some _) s = record s {
  loaded = record s.loaded {
    processed_orders =
        change_row (λ r. r.order_id) p.order_id (λ _. processed_row p) s.loaded.processed_orders;
  };
}

unfoldable pub save_processed : ProcessedOrder → Exec Session (Unit {0})
save_processed p =
    modify λ s. put_processed p (find_row (λ r. r.order_id) p.order_id s.loaded.processed_orders) s

-- outbox_repository_sqlalchemy.py
unfoldable pub enqueue : OutboxMessage → Exec Session (Unit {0})
enqueue message = modify λ s. record s {
  added = record s.added { outbox_messages = s.added.outbox_messages ++ outbox_row message ∷ [] };
  bound = message.payload_json ∷ s.bound;
}

abbrev pub is_pending : OutboxMessageModel → Bool
is_pending m = str_eq m.status "PENDING"

-- `[to_outbox(model) for model in ...]`
unfoldable pub to_outboxes : List OutboxMessageModel → Result (List OutboxMessage)
to_outboxes [] = ok []
to_outboxes (row ∷ rows) =
    let rest = to_outboxes rows in
    Errors.◌>>=◌ (to_outbox row) λ m. Errors.◌>>=◌ rest λ ms. ok (m ∷ ms)

-- the query on the stored rows; messages of one time come in the order of the table
unfoldable pub pending_rows : ℕ → List OutboxMessageModel → List OutboxMessageModel
pending_rows limit rows = take limit (sort_by (λ m. instant m.created_at) (filter is_pending rows))

unfoldable pub list_pending : ℕ → Exec Session (List OutboxMessage)
list_pending limit s = (to_outboxes (pending_rows limit s.loaded.outbox_messages), s)

abbrev pub as_published : Datetime → OutboxMessageModel → OutboxMessageModel
as_published now m = record m { status = "PUBLISHED"; published_at = some now }

abbrev pub as_failed : OutboxMessageModel → OutboxMessageModel
as_failed m = record m { status = "FAILED" }

abbrev pub change_message : String → (OutboxMessageModel → OutboxMessageModel) → Session → Session
change_message message_id change s = record s {
  loaded = record s.loaded {
    outbox_messages = change_row (λ m. m.message_id) message_id change s.loaded.outbox_messages;
  };
}

-- `now` is the clock at the call; a message that is not there is left out
unfoldable pub mark_published : Datetime → String → Exec Session (Unit {0})
mark_published now message_id = modify (change_message message_id (as_published now))

unfoldable pub mark_failed : String → Exec Session (Unit {0})
mark_failed message_id = modify (change_message message_id as_failed)

-- dead_letter_repository_sqlalchemy.py
unfoldable pub save_dead_letter : DeadLetterItem → Exec Session (Unit {0})
save_dead_letter item = modify λ s. record s {
  added = record s.added {
    dead_letter_items = s.added.dead_letter_items ++ dead_letter_row item ∷ [];
  };
  bound = item.payload_json ∷ s.bound;
}
