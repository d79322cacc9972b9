-- ===== src/Tests/Orders.antt =====
-- The processing of orders.
use rules_enrichment_daemon.Prelude.{
  ◌+◌, ◌≡◌, refl, ap, true, false, [], ◌∷◌, ◌++◌, leb, if◌then◌else◌,
}
use rules_enrichment_daemon.Domain.Errors.{ok, err, enrichment_submission, statement_error}
use rules_enrichment_daemon.Domain.Json.{str, end, field, is_serializable}
use rules_enrichment_daemon.Persistence.Models.{no_rows}
use rules_enrichment_daemon.Persistence.Session.{commit}
use rules_enrichment_daemon.Application.Environment.{World}
use rules_enrichment_daemon.Application.Payload.{compute_hash}
use rules_enrichment_daemon.Application.Recording.{ProcessingResult, persist}
use rules_enrichment_daemon.Application.Recording.Atomic.{recorded}
use rules_enrichment_daemon.Application.ProcessOrder.{
  Job, result_of, failed_event, on_failure, process_order,
}
use rules_enrichment_daemon.Application.ProcessOrder.DeadLetters.{
  on_failure-eq, process_order-dead_letters,
}
use rules_enrichment_daemon.Application.ProcessOrder.Idempotency.{
  stored_order, job_of, process_order_again,
}
use rules_enrichment_daemon.Application.ProcessOrder.Submissions.{
  requests, process_order-submissions,
}
use rules_enrichment_daemon.Domain.Json.{fields_serializable, texts}
use rules_enrichment_daemon.Domain.Order.{is_member}
use rules_enrichment_daemon.Domain.Evaluation.{has_matches}
use rules_enrichment_daemon.Persistence.Session.{all_serializable, violates_keys, has_duplicate}
use rules_enrichment_daemon.Persistence.Repositories.{
  save_attempt, save_processed, find_row, enqueue,
}
use rules_enrichment_daemon.Application.Environment.{in_uow}
use rules_enrichment_daemon.Application.Payload.{submit_enrichment}
use rules_enrichment_daemon.Application.Recording.{write_result}
use rules_enrichment_daemon.Application.ProcessOrder.{conclude, enrich, submit_and_persist}
use rules_enrichment_daemon.Application.ProcessOrder.Idempotency.{process_order-eq}
use rules_enrichment_daemon.Tests.Rules.{decision, evaluated, evaluated_later}
use rules_enrichment_daemon.Tests.Samples.{
  runtime, utc, sample_order, sample_rules, spain, standard, sample_env, sample_settings,
  sample_world,
}

pub hashed : compute_hash runtime sample_order decision.enriched_fields ≡ ok "digest"
unfolding compute_hash is_serializable
hashed = refl

-- the world behind the first run
abbrev after_first : World
after_first =
    (process_order sample_env sample_settings sample_order sample_rules (utc 500) sample_world).1

first_done :
    (process_order sample_env sample_settings sample_order sample_rules (utc 500) sample_world).0
    ≡ ok (true, "run-1", false)
unfolding conclude has_matches enrich submit_and_persist submit_enrichment persist in_uow
    write_result save_attempt save_processed find_row enqueue commit all_serializable
    fields_serializable violates_keys has_duplicate is_member texts
first_done =
    ap (λ z. z.0)
      (process_order-eq sample_env sample_settings sample_order sample_rules (utc 500) sample_world
        evaluated hashed)

process_order_again_example :
    process_order sample_env sample_settings sample_order
      (spain ∷ standard ∷ [])
      (utc 900)
      after_first
    ≡ (ok (true, "run-1", true), record after_first { ids_given = after_first.ids_given + 1 })
process_order_again_example =
    process_order_again sample_env sample_settings sample_order sample_rules (spain ∷ standard ∷ [])
      (utc 500) (utc 900) sample_world evaluated evaluated_later refl hashed first_done

process_order-submissions_example :
    (process_order sample_env sample_settings sample_order sample_rules
      (utc 500)
      sample_world).1.submissions
    ≡ sample_world.submissions
      ++ requests sample_settings
          (job_of sample_env sample_order (utc 500) sample_world decision "digest")
          (stored_order "ORD-1" sample_world.tables)
process_order-submissions_example =
    process_order-submissions sample_env sample_settings sample_order sample_rules (utc 500)
      sample_world evaluated hashed

process_order-dead_letters_example :
    (process_order sample_env sample_settings sample_order sample_rules
      (utc 500)
      sample_world).1.tables.dead_letter_items
    ≡ []
process_order-dead_letters_example =
    process_order-dead_letters sample_env sample_settings sample_order sample_rules (utc 500)
      sample_world

-- the job of the third attempt
abbrev third : Job
third = record (job_of sample_env sample_order (utc 500) sample_world decision "digest") {
  attempt_number = 3;
}

failure_stored :
    persist sample_env
      (result_of third false (failed_event sample_env third (enrichment_submission "503")))
      sample_world
    ≡ (
      ok tt,
      record sample_world {
        tables =
            recorded
              (result_of third false (failed_event sample_env third (enrichment_submission "503")))
              no_rows;
      },
    )
unfolding persist in_uow write_result save_attempt enqueue commit all_serializable
    fields_serializable violates_keys has_duplicate is_member
failure_stored = refl

on_failure-eq_example :
    on_failure sample_env sample_settings third (enrichment_submission "503") sample_world ≡ (
      if leb 3 3 then err statement_error else err (enrichment_submission "503"),
      record sample_world {
        tables =
            recorded
              (result_of third false (failed_event sample_env third (enrichment_submission "503")))
              no_rows;
      },
    )
on_failure-eq_example =
    on_failure-eq sample_env sample_settings third (enrichment_submission "503") sample_world _
      failure_stored

abbrev a_result : ProcessingResult
a_result = result_of third true (field "event" (str "NoRulesMatched") end)
