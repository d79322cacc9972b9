-- ===== src/Audit/Recorded.antt =====
-- Processing an order, and the tables as `IsAudited` sees them.
use mathlib.Core.List.{append-nil}
use rules_enrichment_daemon.Prelude.{
  ◌+◌, String, ◌≡◌, refl, ◌∙◌, Bool, true, List, [], ◌∷◌, ◌++◌, All, All-append, All-map, inl, inr,
  Bool-cases, Option-cases, arith, eq_iff,
}
use rules_enrichment_daemon.Prelude.Any.{Any, Any-append, Any-append_last}
use rules_enrichment_daemon.Domain.Datetime.{Datetime}
use rules_enrichment_daemon.Domain.Errors.{Result}
use rules_enrichment_daemon.Domain.Order.{ExternalOrder}
use rules_enrichment_daemon.Domain.Rule.{EnrichmentRule}
use rules_enrichment_daemon.Exec.Keeps.{Keeps}
use rules_enrichment_daemon.Persistence.Models.{Tables, ProcessedOrderModel}
use rules_enrichment_daemon.Persistence.Mappers.{attempt_row, outbox_row, processed_row}
use rules_enrichment_daemon.Persistence.Repositories.{
  find_row, max_attempt, save_attempt, save_processed, enqueue,
}
use rules_enrichment_daemon.Persistence.Repositories.Rows.{All-change_row}
use rules_enrichment_daemon.Application.Environment.{Env}
use rules_enrichment_daemon.Application.Recording.{
  ProcessingResult, build_attempt, processed_of, event_of, write_result,
}
use rules_enrichment_daemon.Application.Recording.Atomic.{
  recorded, recorded_attempts, recorded_outbox, recorded_dead_letters,
}
use rules_enrichment_daemon.Application.ProcessOrder.{ProcessSettings, process_order}
use rules_enrichment_daemon.Application.ProcessOrder.Outcome.{
  Attempt, Outcome, duplicate, succeeded, failed, lost, process_order-Outcome,
}
use rules_enrichment_daemon.Audit.{Announces, Attests, IsAudited}
use rules_enrichment_daemon.Audit.Numbers.{numbers-counted}

module _ (r : ProcessingResult) (t : Tables) where
  -- the processed orders, of which one may be new
  recorded_processed-All :
      (Q : ProcessedOrderModel → Type 0)
      → (r.success ≡ true → Q (processed_row (processed_of r)))
      → All Q t.processed_orders
      → All Q (recorded r t).processed_orders
  unfolding write_result save_attempt save_processed enqueue
  recorded_processed-All Q new old = elim (Bool-cases r.success) [
    | inr unsuccessful ↦ rw unsuccessful (rw append-nil old)
    | inl won ↦ elim (Option-cases (find_row (λ p. p.order_id) r.order_id t.processed_orders)) [
      | inl absent ↦ rw (won, absent) (All-append Q t.processed_orders _ old (new won, tt))
      | inr (p, there) ↦
          rw (won, there)
            (rw append-nil (
              All-change_row Q (λ p. p.order_id) r.order_id (processed_row (processed_of r))
                t.processed_orders (new won) old))
    ]
  ]

  own_event : Announces (attempt_row (build_attempt r)) (outbox_row (event_of r))
  unfolding attempt_row outbox_row
  own_event = elim (Bool-cases r.success) [
    | inl won ↦ record { message_id = refl; aggregate_id = refl; event_type = rw won refl }
    | inr unsuccessful ↦ record {
      message_id = refl;
      aggregate_id = refl;
      event_type = rw unsuccessful refl;
    }
  ]

  own_attempt :
      r.success ≡ true → Attests (processed_row (processed_of r)) (attempt_row (build_attempt r))
  unfolding attempt_row processed_row
  own_attempt won = record {
    order_id = refl;
    correlation_id = refl;
    status = rw won refl;
    started_at = refl;
  }

  recorded-IsAudited :
      r.attempt_number ≡ max_attempt r.order_id t.processing_attempts + 1
      → IsAudited t
      → IsAudited (recorded r t)
  unfolding attempt_row
  recorded-IsAudited next h =
      let row = attempt_row (build_attempt r) in
      let message = outbox_row (event_of r) in
      let old = t.processing_attempts in
      let announced : All (λ a. Any (Announces a) (t.outbox_messages ++ message ∷ []))
          (old ++ row ∷ []) =
        All-append _ old (row ∷ [])
          (All-map _ _ (λ a kept. Any-append (Announces a) t.outbox_messages (message ∷ []) kept)
            old h.announced)
          (Any-append_last (Announces row) t.outbox_messages message (own_event), tt) in
      record {
        attested =
            recorded_processed-All _
              (λ won. rw (recorded_attempts r t) (Any-append_last _ old row (own_attempt won)))
              (All-map _ _
                (λ p kept. rw (recorded_attempts r t) (Any-append (Attests p) old (row ∷ []) kept))
                t.processed_orders h.attested);
        announced = rw (recorded_attempts r t, recorded_outbox r t) announced;
        numbered = λ id. rw (recorded_attempts r t) (
            numbers-counted id old row (λ same. ground (arith, eq_iff r.order_id id, next))
              (h.numbered id));
        no_dead_letters = recorded_dead_letters r t ∙ h.no_dead_letters;
      }

Outcome-IsAudited :
    {a : Attempt} {t t' : Tables} {answer : Result (Bool × String × Bool)}
    → a.attempt_number ≡ max_attempt a.order_id t.processing_attempts + 1
    → Outcome a t answer t'
    → IsAudited t
    → IsAudited t'
Outcome-IsAudited next duplicate h = h
Outcome-IsAudited next (succeeded hash now event) h = recorded-IsAudited _ _ next h
Outcome-IsAudited next (failed e hash now event) h = recorded-IsAudited _ _ next h
Outcome-IsAudited next (lost e) h = h

pub process_order-IsAudited :
    (env : Env) (settings : ProcessSettings) (order : ExternalOrder) (rules : List EnrichmentRule)
    (now : Datetime)
    → Keeps (λ w. IsAudited w.tables) (process_order env settings order rules now)
process_order-IsAudited env settings order rules now = record {
  stays = λ w h. Outcome-IsAudited refl (process_order-Outcome env settings order rules now w) h;
}
