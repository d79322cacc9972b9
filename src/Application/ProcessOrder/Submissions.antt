-- ===== src/Application/ProcessOrder/Submissions.antt =====
-- What processing an order sends to the external API.
use mathlib.Core.List.{append-nil}
use rules_enrichment_daemon.Prelude.{
  String, ◌≡◌, refl, ◌∙◌, sym, true, false, Option, List, [], ◌∷◌, ◌++◌, inl, inr, Bool-cases,
  if◌then◌else◌,
}
use rules_enrichment_daemon.Domain.Errors.{Error, ok}
use rules_enrichment_daemon.Domain.Datetime.{Datetime}
use rules_enrichment_daemon.Domain.Order.{ExternalOrder}
use rules_enrichment_daemon.Domain.Rule.{EnrichmentRule}
use rules_enrichment_daemon.Domain.Evaluation.{EnrichmentDecision, has_matches, evaluate}
use rules_enrichment_daemon.Domain.Processing.{ProcessedOrder}
use rules_enrichment_daemon.Exec.{pure}
use rules_enrichment_daemon.Exec.Keeps.{Keeps, Keeps-then, Keeps-same, after_continue, after_handle}
use rules_enrichment_daemon.Application.Environment.{Env, World, Submission}
use rules_enrichment_daemon.Application.Payload.{
  build_payload, payload_to_dict, submit_enrichment, compute_hash,
}
use rules_enrichment_daemon.Application.Recording.{ProcessingResult, persist}
use rules_enrichment_daemon.Application.Recording.Atomic.{persist-cases}
use rules_enrichment_daemon.Application.ProcessOrder.{
  ProcessSettings, Job, is_duplicate, result_of, succeeded_event, no_rules_event,
  submit_and_persist, on_failure, enrich, record_no_match, conclude, process_order,
}
use rules_enrichment_daemon.Application.ProcessOrder.DeadLetters.{move_to_dead_letter_raises}
use rules_enrichment_daemon.Application.ProcessOrder.Rules.{Keeps-on_failure}
use rules_enrichment_daemon.Application.ProcessOrder.Idempotency.{
  stored_order, job_of, process_order-eq,
}

-- the request for a job
abbrev pub submission_of : ProcessSettings → Job → Submission
submission_of settings job = record {
  order_id = job.order.order_id;
  payload = payload_to_dict (
      build_payload settings.source_system settings.enrichment_version job.correlation_id
        job.decision);
  correlation_id = job.correlation_id;
}

-- the requests that concluding a job makes
abbrev pub requests : ProcessSettings → Job → Option ProcessedOrder → List Submission
requests settings job processed =
    if is_duplicate processed job.preview_hash
    then []
    else if has_matches job.decision
    then submission_of settings job ∷ []
    else []

abbrev HasSent : List Submission → World → Type 0
HasSent sent v = v.submissions ≡ sent

module _ (env : Env) (settings : ProcessSettings) (sent : List Submission) where
  Keeps-persist : (r : ProcessingResult) → Keeps (HasSent sent) (persist env r)
  Keeps-persist r = record {
    stays = λ v h. elim (persist-cases env r v) [
      | inl stored ↦ rw stored h
      | inr (x, raised) ↦ rw raised h
    ];
  }

  Keeps-failure : (job : Job) (e : Error) → Keeps (HasSent sent) (on_failure env settings job e)
  Keeps-failure job e =
      Keeps-on_failure env settings Keeps-persist
        (λ other reason. record { stays = λ v h. rw move_to_dead_letter_raises h }) job e

module _ (env : Env) (settings : ProcessSettings) (job : Job) where
  record_no_match-submissions :
      (v : World) → (record_no_match env job v).1.submissions ≡ v.submissions
  unfolding record_no_match
  record_no_match-submissions v =
      (Keeps-then (persist env (result_of job true (no_rules_event job)))
          (pure (true, job.correlation_id, false)) (Keeps-persist env settings v.submissions _)
          (Keeps-same (ok _))).stays
        v refl

  enrich-submissions :
      (v : World)
      → (enrich env settings job v).1.submissions ≡ v.submissions ++ submission_of settings job ∷ []
  unfolding enrich submit_and_persist submit_enrichment
  enrich-submissions v =
      let sent = v.submissions ++ submission_of settings job ∷ [] in
      after_handle {Inv = HasSent sent} (submit_and_persist env settings job v)
        (on_failure env settings job)
        (after_continue {Inv = HasSent sent}
          (submit_enrichment env job.order.order_id _ job.correlation_id v) _ refl
          λ _.
            Keeps-then (persist env (result_of job true (succeeded_event job)))
              (pure (true, job.correlation_id, false)) (Keeps-persist env settings sent _)
              (Keeps-same (ok _)))
        (Keeps-failure env settings sent job)

  conclude-submissions :
      (p : Option ProcessedOrder) (v : World)
      → (conclude env settings job p v).1.submissions ≡ v.submissions ++ requests settings job p
  unfolding conclude
  conclude-submissions p v = elim (Bool-cases (is_duplicate p job.preview_hash)) [
    | inl duplicate ↦ rw duplicate (sym (append-nil v.submissions))
    | inr fresh ↦ elim (Bool-cases (has_matches job.decision)) [
      | inl matched ↦ rw (fresh, matched) (enrich-submissions v)
      | inr unmatched ↦
          rw (fresh, unmatched) (record_no_match-submissions v ∙ sym (append-nil v.submissions))
    ]
  ]

module _ (env : Env) (settings : ProcessSettings) (order : ExternalOrder)
    (rules : List EnrichmentRule) (now : Datetime) (w : World) where
  -- If the evaluation and the hash succeed, processing an order makes one request to the external
  -- API when the hash differs from the stored one and some rule matches, with the order's id, the
  -- payload of the decision and the fresh correlation id, and none otherwise, whatever the request
  -- and the database answer.
  pub process_order-submissions :
      {d : EnrichmentDecision} {hash : String}
      → evaluate env.runtime order rules now ≡ ok d
      → compute_hash env.runtime order d.enriched_fields ≡ ok hash
      → (process_order env settings order rules now w).1.submissions
        ≡ w.submissions
          ++ requests settings
              (job_of env order now w d hash)
              (stored_order order.order_id w.tables)
  process_order-submissions {d} {hash} evaluated hashed =
      rw (process_order-eq env settings order rules now w evaluated hashed)
        (conclude-submissions env settings (job_of env order now w d hash) _ _)
