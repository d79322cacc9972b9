-- ===== src/Persistence/UnitOfWork.antt =====
-- infrastructure/unit_of_work/sqlalchemy_uow.py with the repositories that it builds, as an
-- implementation of the ports.
pub mod Lookups
pub mod Lawful
use rules_enrichment_daemon.Prelude.{Bool, if◌then◌else◌}
use rules_enrichment_daemon.Persistence.Models.{Tables}
use rules_enrichment_daemon.Persistence.Session.{Session, Database, open_session, commit}
use rules_enrichment_daemon.Persistence.Repositories.{
  list_active_rules, upsert_many, get_next_attempt_number, save_attempt, get_by_order_id,
  save_processed, enqueue, list_pending, mark_published, mark_failed, save_dead_letter,
}
use rules_enrichment_daemon.Application.Ports.{
  EnrichmentRuleRepository, ProcessingAttemptRepository, ProcessedOrderRepository, OutboxRepository,
  DeadLetterRepository, UnitOfWork,
}

abbrev pub sql_rules : EnrichmentRuleRepository Session
sql_rules = record { list_active_rules = list_active_rules; upsert_many = upsert_many }

abbrev pub sql_attempts : ProcessingAttemptRepository Session
sql_attempts = record { get_next_attempt_number = get_next_attempt_number; save = save_attempt }

abbrev pub sql_processed_orders : ProcessedOrderRepository Session
sql_processed_orders = record { get_by_order_id = get_by_order_id; save = save_processed }

abbrev pub sql_outbox : OutboxRepository Session
sql_outbox = record {
  enqueue = enqueue;
  list_pending = list_pending;
  mark_published = mark_published;
  mark_failed = mark_failed;
}

abbrev pub sql_dead_letter : DeadLetterRepository Session
sql_dead_letter = record { save = save_dead_letter }

-- `session.rollback()`
abbrev pub rollback : Session → Session
rollback s = open_session s.committed

-- `__exit__`; `session.close()` lets go of what was not committed
abbrev pub exit : Bool → Session → Tables
exit raised s = (if raised then rollback s else s).committed

abbrev pub sql_unit_of_work : Database → UnitOfWork
sql_unit_of_work db = record {
  Store = Tables;
  Session = Session;
  rules = sql_rules;
  attempts = sql_attempts;
  processed_orders = sql_processed_orders;
  outbox = sql_outbox;
  dead_letter = sql_dead_letter;
  enter = open_session;
  exit = exit;
  commit = commit db;
  rollback = rollback;
}
