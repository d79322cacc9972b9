-- ===== src/Tests/Connected.antt =====
-- Processing an order with the client that the settings give.
use rules_enrichment_daemon.Prelude.{ap, ℕ, String, ◌≡◌, refl, true, false}
use rules_enrichment_daemon.Domain.Json.{null, Fields}
use rules_enrichment_daemon.Domain.Errors.{Error, Result, ok, foreign}
use rules_enrichment_daemon.Http.Retry.{answered, judged, retry_loop, run}
use rules_enrichment_daemon.Http.Client.{Network}
use rules_enrichment_daemon.Application.Environment.{Env}
use rules_enrichment_daemon.Application.ProcessOrder.{process_order}
use rules_enrichment_daemon.Application.ProcessOrder.Idempotency.{job_of}
use rules_enrichment_daemon.Application.ProcessOrder.Submissions.{submission_of}
use rules_enrichment_daemon.Http.Client as Client
use rules_enrichment_daemon.Persistence.Session.{commit}
use rules_enrichment_daemon.Domain.Json.{fields_serializable, texts}
use rules_enrichment_daemon.Domain.Order.{is_member}
use rules_enrichment_daemon.Domain.Evaluation.{has_matches}
use rules_enrichment_daemon.Persistence.Session.{all_serializable, violates_keys, has_duplicate}
use rules_enrichment_daemon.Persistence.Repositories.{
  save_attempt, save_processed, find_row, enqueue,
}
use rules_enrichment_daemon.Application.Environment.{in_uow}
use rules_enrichment_daemon.Application.Payload.{submit_enrichment}
use rules_enrichment_daemon.Application.Recording.{write_result}
use rules_enrichment_daemon.Application.ProcessOrder.{conclude, enrich, submit_and_persist}
use rules_enrichment_daemon.Application.ProcessOrder.Idempotency.{process_order-eq}
use rules_enrichment_daemon.Application.Recording.{persist}
use rules_enrichment_daemon.Bootstrap.{external_wms, with_sink, connected, enrichment_facade}
use rules_enrichment_daemon.Bootstrap.Config.{default_settings}
use rules_enrichment_daemon.Bootstrap.Connected.{IsAnswered, process_order-IsAnswered}
use rules_enrichment_daemon.Tests.Samples.{
  utc, sample_order, sample_rules, sample_env, sample_world,
}
use rules_enrichment_daemon.Tests.Rules.{decision, evaluated}
use rules_enrichment_daemon.Tests.Orders.{hashed}

abbrev good_network : ℕ → Network
good_network n = record {
  reply = λ k r. answered (record { status_code = 200; body = null });
  jitter = λ k. 100;
  status_text = λ r. "status";
}

abbrev post : ℕ → String → Fields → Result ℕ
post n url body = ok 200

abbrev status_error : ℕ → Error
status_error code = foreign "status"

abbrev env : Env
env = connected default_settings good_network post status_error sample_env

matched : has_matches decision ≡ true
unfolding has_matches
matched = refl

processed :
    (process_order env
      (enrichment_facade default_settings).process
      sample_order
      sample_rules
      (utc 500)
      sample_world).0
    ≡ ok (true, "run-1", false)
unfolding conclude has_matches enrich submit_and_persist submit_enrichment persist in_uow
    write_result save_attempt save_processed find_row enqueue commit all_serializable
    fields_serializable violates_keys has_duplicate is_member texts connected enrichment_facade
    with_sink external_wms Client.submit_enrichment Client.request Client.translated
    Client.raise_for_status run retry_loop judged
processed =
    ap (λ z. z.0)
      (process_order-eq env (enrichment_facade default_settings).process sample_order sample_rules
        (utc 500) sample_world evaluated hashed)

process_order-IsAnswered_example : IsAnswered default_settings (good_network 0) (
    submission_of
      (enrichment_facade default_settings).process
      (job_of env sample_order (utc 500) sample_world decision "digest"))
unfolding find_row
process_order-IsAnswered_example =
    process_order-IsAnswered default_settings good_network post status_error sample_env sample_order
      sample_rules (utc 500) sample_world evaluated hashed matched refl processed
