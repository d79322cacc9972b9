-- ===== src/Application/Recording/Atomic.antt =====
-- Recording is atomic: attempt, processed order and event are stored together or not at all.
use mathlib.Core.List.{append-nil}
use rules_enrichment_daemon.Prelude.{
  ◌≡◌, refl, ◌∙◌, true, false, some, [], ◌∷◌, ◌++◌, ◌⊎◌, inl, inr, Bool-cases, Option-cases, arith,
  eq_refl,
}
use rules_enrichment_daemon.Domain.Errors.{Error, ok, err}
use rules_enrichment_daemon.Persistence.Models.{Tables, with_rows}
use rules_enrichment_daemon.Persistence.Mappers.{attempt_row, outbox_row, processed_row}
use rules_enrichment_daemon.Persistence.Session.{Session, open_session}
use rules_enrichment_daemon.Persistence.Session.Transactions.{commit-cases}
use rules_enrichment_daemon.Persistence.Repositories.{
  find_row, save_attempt, save_processed, enqueue,
}
use rules_enrichment_daemon.Persistence.Repositories.Rows.{find_row-append, find_row-change_row}
use rules_enrichment_daemon.Application.Environment.{Env, World, in_uow}
use rules_enrichment_daemon.Application.Recording.{
  ProcessingResult, build_attempt, processed_of, event_of, write_result, persist,
}

-- the session once the block has written
abbrev pub written : ProcessingResult → Session → Session
written r s = (write_result r s).1

pub write_result-eq : (r : ProcessingResult) (s : Session) → write_result r s ≡ (ok tt, written r s)
unfolding write_result save_attempt save_processed enqueue
write_result-eq r s = elim (Bool-cases r.success) [ inl won ↦ rw won | inr lost ↦ rw lost ]

pub committed-written : (r : ProcessingResult) (s : Session) → (written r s).committed ≡ s.committed
unfolding write_result save_attempt save_processed enqueue
committed-written r s = ground arith

-- the tables once a result is recorded
abbrev pub recorded : ProcessingResult → Tables → Tables
recorded r t = let s = written r (open_session t) in with_rows s.loaded s.added

-- Persisting a result writes all of it, or raises and leaves the world as it was.
pub persist-cases :
    (env : Env) (r : ProcessingResult) (w : World)
    → (persist env r w ≡ (ok tt, record w { tables = recorded r w.tables }))
      ⊎ ((e : Error) × (persist env r w ≡ (err e, w)))
unfolding persist in_uow
persist-cases env r w = elim (commit-cases env.database (written r (open_session w.tables))) [
  | inl stored ↦ inl (rw (write_result-eq, stored))
  | inr (e, raised) ↦ inr (e, rw (write_result-eq, raised, committed-written))
]

module _ (r : ProcessingResult) (t : Tables) where
  pub recorded_attempts :
      (recorded r t).processing_attempts
      ≡ t.processing_attempts ++ attempt_row (build_attempt r) ∷ []
  unfolding write_result save_attempt save_processed enqueue
  recorded_attempts = ground arith

  pub recorded_outbox :
      (recorded r t).outbox_messages ≡ t.outbox_messages ++ outbox_row (event_of r) ∷ []
  unfolding write_result save_attempt save_processed enqueue
  recorded_outbox = ground arith

  pub recorded_dead_letters : (recorded r t).dead_letter_items ≡ t.dead_letter_items
  unfolding write_result save_attempt save_processed enqueue
  recorded_dead_letters = ground (arith, append-nil t.dead_letter_items)

  pub recorded_rules : (recorded r t).enrichment_rules ≡ t.enrichment_rules
  unfolding write_result save_attempt save_processed enqueue
  recorded_rules = ground (arith, append-nil t.enrichment_rules)

  pub recorded_processed_failed :
      r.success ≡ false → (recorded r t).processed_orders ≡ t.processed_orders
  unfolding write_result save_attempt save_processed enqueue
  recorded_processed_failed lost = ground (arith, append-nil t.processed_orders)

  -- After a success the table has the new hash for the order.
  pub find_row-recorded :
      r.success ≡ true
      → find_row (λ p. p.order_id) r.order_id (recorded r t).processed_orders
        ≡ some (processed_row (processed_of r))
  unfolding write_result save_attempt save_processed enqueue processed_row
  find_row-recorded won =
      elim (Option-cases (find_row (λ p. p.order_id) r.order_id t.processed_orders)) [
        | inl new ↦
            rw (won, new)
              (find_row-append (λ p. p.order_id) r.order_id t.processed_orders
                  (processed_row (processed_of r)) new
                ∙ rw (eq_refl r.order_id))
        | inr (old, found) ↦
            rw (won, found, append-nil)
              (find_row-change_row (λ p. p.order_id) r.order_id
                (λ _. processed_row (processed_of r)) t.processed_orders refl found)
      ]
