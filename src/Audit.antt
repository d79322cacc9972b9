-- ===== src/Audit.antt =====
-- Predicates on what the tables tell of the past: on the rows that
-- use_cases/persist_processing_result.py and use_cases/move_dead_letter.py write together.
pub mod Numbers
pub mod Recorded
pub mod Kept
pub mod Delivered
pub mod Reached
use Prim.Native.String.{◌++◌ as join}
use rules_enrichment_daemon.Prelude.{
  ℕ, zero, suc, String, ◌≡◌, List, [], ◌∷◌, ◌++◌, length, All, str_eq, if◌then◌else◌,
}
use rules_enrichment_daemon.Prelude.Any.{Any}
use rules_enrichment_daemon.Persistence.Models.{
  Tables, ProcessingAttemptModel, ProcessedOrderModel, OutboxMessageModel,
}

-- the message is the event of the attempt
pub record Announces (a : ProcessingAttemptModel) (m : OutboxMessageModel) : Type 0 where
  pub message_id : m.message_id ≡ join "outbox-" (join a.correlation_id (join "-" a.order_id))
  pub aggregate_id : m.aggregate_id ≡ a.order_id
  pub event_type :
      m.event_type
      ≡ (if str_eq a.status "SUCCESS" then "OrderEnrichmentSucceeded" else "OrderEnrichmentFailed")

-- the attempt is the one that the processed order names
pub record Attests (p : ProcessedOrderModel) (a : ProcessingAttemptModel) : Type 0 where
  pub order_id : a.order_id ≡ p.order_id
  pub correlation_id : a.correlation_id ≡ p.correlation_id
  pub status : a.status ≡ "SUCCESS"
  pub started_at : a.started_at ≡ p.processed_at

-- the numbers of the attempts at an order, in the order of the table
abbrev pub numbers : String → List ProcessingAttemptModel → List ℕ
numbers id [] = []
numbers id (row ∷ rows) =
    if str_eq row.order_id id then row.attempt_number ∷ numbers id rows else numbers id rows

-- 1, 2, ... , n
abbrev pub count_to : ℕ → List ℕ
count_to zero = []
count_to (suc n) = count_to n ++ suc n ∷ []

pub record IsAudited (t : Tables) : Type 0 where
  pub attested : All (λ p. Any (Attests p) t.processing_attempts) t.processed_orders
  pub announced : All (λ a. Any (Announces a) t.outbox_messages) t.processing_attempts
  pub numbered :
      (id : String)
      → numbers id t.processing_attempts ≡ count_to (length (numbers id t.processing_attempts))
  pub no_dead_letters : t.dead_letter_items ≡ []
