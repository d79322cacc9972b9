-- ===== src/Application/ProcessOrder/Outcome.antt =====
-- The ways in which processing an order can end.
use rules_enrichment_daemon.Prelude.{
  ◌+◌, ℕ, String, ◌≡◌, Bool, true, false, leb, Option, List, inl, inr, Bool-cases,
}
use rules_enrichment_daemon.Domain.Errors.{Error, Result, ok, err, Result-cases}
use rules_enrichment_daemon.Domain.Datetime.{Datetime}
use rules_enrichment_daemon.Domain.Json.{Fields}
use rules_enrichment_daemon.Domain.Order.{ExternalOrder}
use rules_enrichment_daemon.Domain.Rule.{EnrichmentRule}
use rules_enrichment_daemon.Domain.Evaluation.{EnrichmentDecision, has_matches, evaluate}
use rules_enrichment_daemon.Domain.Processing.{ProcessedOrder}
use rules_enrichment_daemon.Persistence.Models.{Tables}
use rules_enrichment_daemon.Persistence.Repositories.{max_attempt, get_next_attempt_number}
use rules_enrichment_daemon.Application.Environment.{Env, World, new_id, in_uow}
use rules_enrichment_daemon.Application.Payload.{build_payload, submit_enrichment, compute_hash}
use rules_enrichment_daemon.Application.Recording.{ProcessingResult}
use rules_enrichment_daemon.Application.Recording.Atomic.{recorded, persist-cases}
use rules_enrichment_daemon.Application.ProcessOrder.{
  ProcessSettings, Job, is_duplicate, result_of, succeeded_event, no_rules_event, failed_event,
  submit_and_persist, on_failure, enrich, record_no_match, conclude, process_order,
}
use rules_enrichment_daemon.Application.ProcessOrder.DeadLetters.{on_failure-eq}
use rules_enrichment_daemon.Application.ProcessOrder.Idempotency.{
  stored_order, job_of, next_id, process_order-eq, process_order-evaluation_error,
}

-- an attempt at an order, by its number and its correlation id
pub record Attempt : Type 0 where
  pub order_id : String
  pub correlation_id : String
  pub attempt_number : ℕ

-- what is recorded of it
abbrev pub result_for : Attempt → String → Datetime → Fields → Bool → ProcessingResult
result_for a hash now event success = record {
  order_id = a.order_id;
  correlation_id = a.correlation_id;
  attempt_number = a.attempt_number;
  enrichment_hash = hash;
  success = success;
  now = now;
  event_payload = event;
}

-- the answer of an attempt that began with the tables `t`, and the tables that it leaves
pub data Outcome (a : Attempt) (t : Tables) : Result (Bool × String × Bool) → Tables → Type 0 where
  -- the hash was stored already
  duplicate : Outcome a t (ok (true, a.correlation_id, true)) t
  -- one result is recorded, a success
  succeeded :
      (hash : String) (now : Datetime) (event : Fields)
      → Outcome a t
          (ok (true, a.correlation_id, false))
          (recorded (result_for a hash now event true) t)
  -- one result is recorded, a failure
  failed :
      (e : Error) (hash : String) (now : Datetime) (event : Fields)
      → Outcome a t (err e) (recorded (result_for a hash now event false) t)
  -- nothing is recorded
  lost : (e : Error) → Outcome a t (err e) t

abbrev attempt_of : Job → Attempt
attempt_of job = record {
  order_id = job.order.order_id;
  correlation_id = job.correlation_id;
  attempt_number = job.attempt_number;
}

-- an answer and a world, with how they come about
abbrev Ends : Job → World → Result (Bool × String × Bool) × World → Type 0
Ends job v x = Outcome (attempt_of job) v.tables x.0 x.1.tables

module _ (env : Env) (settings : ProcessSettings) (job : Job) where
  record_no_match-Ends : (v : World) → Ends job v (record_no_match env job v)
  unfolding record_no_match
  record_no_match-Ends v = elim (persist-cases env (result_of job true (no_rules_event job)) v) [
    | inl stored ↦ rw stored (succeeded job.preview_hash job.now (no_rules_event job))
    | inr (e, raised) ↦ rw raised (lost e)
  ]

  on_failure-Ends : (e : Error) (v : World) → Ends job v (on_failure env settings job e v)
  on_failure-Ends e v =
      let event = failed_event env job e in
      elim (persist-cases env (result_of job false event) v) [
        | inr (e', raised) ↦ unfold on_failure in rw raised (lost e')
        | inl stored ↦
            rw (on_failure-eq env settings job e v _ stored)
              (elim (Bool-cases (leb settings.max_processing_attempts job.attempt_number)) [
                | inl over ↦ rw over (failed _ job.preview_hash job.now event)
                | inr under ↦ rw under (failed _ job.preview_hash job.now event)
              ])
      ]

  enrich-Ends : (v : World) → Ends job v (enrich env settings job v)
  unfolding enrich submit_and_persist submit_enrichment
  enrich-Ends v =
      let id = job.order.order_id in
      let sent =
        (submit_enrichment env id
          (build_payload settings.source_system settings.enrichment_version job.correlation_id
            job.decision)
          job.correlation_id v).1 in
      elim (Result-cases
        (submit_enrichment env id
          (build_payload settings.source_system settings.enrichment_version job.correlation_id
            job.decision)
          job.correlation_id v).0) [
            | inr (e, refused) ↦ rw refused (on_failure-Ends e sent)
            | inl (_, accepted) ↦
                elim (persist-cases env (result_of job true (succeeded_event job)) sent) [
                  | inl stored ↦
                      rw (accepted, stored)
                        (succeeded job.preview_hash job.now (succeeded_event job))
                  | inr (e, raised) ↦ rw (accepted, raised) (on_failure-Ends e sent)
                ]
          ]

  conclude-Ends :
      (p : Option ProcessedOrder) (v : World) → Ends job v (conclude env settings job p v)
  unfolding conclude
  conclude-Ends p v = elim (Bool-cases (is_duplicate p job.preview_hash)) [
    | inl known ↦ rw known duplicate
    | inr fresh ↦ elim (Bool-cases (has_matches job.decision)) [
      | inl matched ↦ rw (fresh, matched) (enrich-Ends v)
      | inr unmatched ↦ rw (fresh, unmatched) (record_no_match-Ends v)
    ]
  ]

-- the attempt that processing an order makes in this world
abbrev pub next_attempt : Env → ExternalOrder → World → Attempt
next_attempt env order w = record {
  order_id = order.order_id;
  correlation_id = env.ids w.ids_given;
  attempt_number = max_attempt order.order_id w.tables.processing_attempts + 1;
}

module _ (env : Env) (settings : ProcessSettings) (order : ExternalOrder)
    (rules : List EnrichmentRule) (now : Datetime) (w : World) where
  unhashed :
      {d : EnrichmentDecision} {e : Error}
      → evaluate env.runtime order rules now ≡ ok d
      → compute_hash env.runtime order d.enriched_fields ≡ err e
      → process_order env settings order rules now w
        ≡ (err e, next_id env settings order rules now w)
  unfolding process_order new_id in_uow get_next_attempt_number
  unhashed evaluated raised = rw (evaluated, raised)

  -- Processing an order, whatever the request, the rules and the database answer, ends in one of four
  -- ways: it answers that the order is a duplicate and leaves the tables alone; it answers success
  -- and has recorded one result, a success; it raises and has recorded one result, a failure; it
  -- raises and leaves the tables alone. What is recorded has the order's id, the fresh correlation
  -- id and the number that follows the highest one of the order.
  pub process_order-Outcome :
      Outcome
        (next_attempt env order w)
        w.tables
        (process_order env settings order rules now w).0
        (process_order env settings order rules now w).1.tables
  process_order-Outcome = elim (Result-cases (evaluate env.runtime order rules now)) [
    | inr (e, raised) ↦
        rw (process_order-evaluation_error env settings order rules now w raised) (lost e)
    | inl (d, evaluated) ↦ elim (Result-cases (compute_hash env.runtime order d.enriched_fields)) [
      | inr (e, raised) ↦ rw (unhashed evaluated raised) (lost e)
      | inl (hash, hashed) ↦ rw (process_order-eq env settings order rules now w evaluated hashed) (
          conclude-Ends env settings (job_of env order now w d hash)
            (stored_order order.order_id w.tables) (next_id env settings order rules now w))
    ]
  ]
