-- ===== src/Application/Recording/Attempts.antt =====
-- The numbers of the attempts.
use rules_enrichment_daemon.Prelude.{◌+◌, ◌≡◌, arith, eq_refl}
use rules_enrichment_daemon.Persistence.Models.{Tables}
use rules_enrichment_daemon.Persistence.Mappers.{attempt_row}
use rules_enrichment_daemon.Persistence.Repositories.{max_attempt}
use rules_enrichment_daemon.Persistence.Repositories.Rows.{max_attempt-append}
use rules_enrichment_daemon.Application.Recording.{ProcessingResult, build_attempt}
use rules_enrichment_daemon.Application.Recording.Atomic.{recorded, recorded_attempts}

-- When a result is recorded under the number that follows the highest of its order, that number is
-- the order's highest, whether the attempt succeeded or failed.
max_attempt-recorded :
    (r : ProcessingResult) (t : Tables)
    → r.attempt_number ≡ max_attempt r.order_id t.processing_attempts + 1
    → max_attempt r.order_id (recorded r t).processing_attempts ≡ r.attempt_number
unfolding attempt_row
max_attempt-recorded r t next =
    rw
      (
        recorded_attempts r t,
        max_attempt-append r.order_id t.processing_attempts (attempt_row (build_attempt r)),
        eq_refl r.order_id,
      )
      (omega (arith, next))
