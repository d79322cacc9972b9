-- ===== src/Application/Ports.antt =====
-- application/ports: the repositories and the unit of work as the use cases see them. `S` is the
-- session that the repositories of one unit of work share.
pub mod Laws
use rules_enrichment_daemon.Prelude.{ℕ, String, Bool, true, false, Option, List}
use rules_enrichment_daemon.Domain.Errors.{Result, ok, err}
use rules_enrichment_daemon.Domain.Datetime.{Datetime}
use rules_enrichment_daemon.Domain.Rule.{EnrichmentRule}
use rules_enrichment_daemon.Domain.Processing.{
  ProcessedOrder, ProcessingAttempt, OutboxMessage, DeadLetterItem,
}
use rules_enrichment_daemon.Exec.{Exec}

-- rule_repository.py
pub record EnrichmentRuleRepository (S : Type 0) : Type 0 where
  pub list_active_rules :
      Datetime → Option String → Option String → Option String → Exec S (List EnrichmentRule)
  pub upsert_many : List EnrichmentRule → Exec S (Unit {0})

-- processing_attempt_repository.py
pub record ProcessingAttemptRepository (S : Type 0) : Type 0 where
  pub get_next_attempt_number : String → Exec S ℕ
  pub save : ProcessingAttempt → Exec S (Unit {0})

-- processed_order_repository.py
pub record ProcessedOrderRepository (S : Type 0) : Type 0 where
  pub get_by_order_id : String → Exec S (Option ProcessedOrder)
  pub save : ProcessedOrder → Exec S (Unit {0})

-- outbox_repository.py; the time that `mark_published` reads is an argument
pub record OutboxRepository (S : Type 0) : Type 0 where
  pub enqueue : OutboxMessage → Exec S (Unit {0})
  pub list_pending : ℕ → Exec S (List OutboxMessage)
  pub mark_published : Datetime → String → Exec S (Unit {0})
  pub mark_failed : String → Exec S (Unit {0})

-- dead_letter_repository.py
pub record DeadLetterRepository (S : Type 0) : Type 0 where
  pub save : DeadLetterItem → Exec S (Unit {0})

-- unit_of_work.py; `Store` is what stays between units of work
pub record UnitOfWork : Type 1 where
  pub Store : Type 0
  pub Session : Type 0
  pub rules : EnrichmentRuleRepository Session
  pub attempts : ProcessingAttemptRepository Session
  pub processed_orders : ProcessedOrderRepository Session
  pub outbox : OutboxRepository Session
  pub dead_letter : DeadLetterRepository Session
  -- `__enter__`
  pub enter : Store → Session
  -- `__exit__`, and whether an exception goes through it
  pub exit : Bool → Session → Store
  pub commit : Exec Session (Unit {0})
  pub rollback : Session → Session

abbrev has_raised : {A : Type 0} → Result A → Bool
has_raised (ok a) = false
has_raised (err e) = true

-- `with uow: body`
abbrev pub within : (u : UnitOfWork) {A : Type 0} → Exec u.Session A → u.Store → Result A × u.Store
within u body store = let x = body (u.enter store) in (x.0, u.exit (has_raised x.0) x.1)
