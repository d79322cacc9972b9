-- ===== src/Application/ProcessOrder/Idempotency.antt =====
-- The stored hash, and processing an order again.
use mathlib.Core.Option
use rules_enrichment_daemon.Prelude.{
  ◌+◌, String, ◌≡◌, refl, ◌∙◌, ap, sym, Bool, true, false, not, Option, List, inl, inr, eq_refl,
  if◌then◌else◌,
}
use rules_enrichment_daemon.Domain.Errors.{Error, ok, err}
use rules_enrichment_daemon.Domain.Datetime.{Datetime}
use rules_enrichment_daemon.Domain.Json.{Fields}
use rules_enrichment_daemon.Domain.Order.{ExternalOrder}
use rules_enrichment_daemon.Domain.Rule.{EnrichmentRule}
use rules_enrichment_daemon.Domain.Evaluation.{EnrichmentDecision, has_matches, evaluate}
use rules_enrichment_daemon.Domain.Processing.{ProcessedOrder}
use rules_enrichment_daemon.Exec.{pure}
use rules_enrichment_daemon.Exec.Ensures.{
  Ensures, Ensures-elim, Ensures-handle, Ensures-continue, Ensures-after, Ensures-if,
}
use rules_enrichment_daemon.Persistence.Models.{Tables}
use rules_enrichment_daemon.Persistence.Mappers.{to_processed, processed_row}
use rules_enrichment_daemon.Persistence.Repositories.{
  find_row, max_attempt, get_next_attempt_number, get_by_order_id,
}
use rules_enrichment_daemon.Application.Environment.{Env, World, new_id, in_uow}
use rules_enrichment_daemon.Application.Payload.{submit_enrichment, compute_hash}
use rules_enrichment_daemon.Application.Recording.{ProcessingResult, persist}
use rules_enrichment_daemon.Application.Recording.Atomic.{
  recorded, persist-cases, find_row-recorded,
}
use rules_enrichment_daemon.Application.ProcessOrder.{
  ProcessSettings, Job, is_duplicate, result_of, succeeded_event, no_rules_event, record_no_match,
  failed_event, submit_and_persist, give_up, on_failure, enrich, conclude, process_order,
}

-- the processed order that `get_by_order_id` finds
abbrev pub stored_order : String → Tables → Option ProcessedOrder
stored_order id t = Option.map to_processed (find_row (λ p. p.order_id) id t.processed_orders)

-- the job of an order whose evaluation and hash are known
abbrev pub job_of : Env → ExternalOrder → Datetime → World → EnrichmentDecision → String → Job
job_of env order now w d hash = record {
  order = order;
  now = now;
  correlation_id = env.ids w.ids_given;
  attempt_number = max_attempt order.order_id w.tables.processing_attempts + 1;
  decision = d;
  preview_hash = hash;
}

module _ (env : Env) (settings : ProcessSettings) (order : ExternalOrder)
    (rules : List EnrichmentRule) (now : Datetime) (w : World) where
  abbrev pub next_id : World
  next_id = record w { ids_given = w.ids_given + 1 }

  pub process_order-eq :
      {d : EnrichmentDecision} {hash : String}
      → evaluate env.runtime order rules now ≡ ok d
      → compute_hash env.runtime order d.enriched_fields ≡ ok hash
      → process_order env settings order rules now w
        ≡ conclude env settings
            (job_of env order now w d hash)
            (stored_order order.order_id w.tables)
            next_id
  unfolding process_order new_id in_uow get_next_attempt_number get_by_order_id
  process_order-eq evaluated hashed = rw (evaluated, hashed)

  -- An exception of the evaluation, such as that of a malformed rule, comes out as it is: nothing
  -- is submitted and no attempt, event or dead letter is stored.
  pub process_order-evaluation_error :
      {e : Error}
      → evaluate env.runtime order rules now ≡ err e
      → process_order env settings order rules now w ≡ (err e, next_id)
  unfolding process_order new_id in_uow get_next_attempt_number
  process_order-evaluation_error raised = rw raised

recorded-is_duplicate :
    (r : ProcessingResult) (t : Tables)
    → r.success ≡ true
    → is_duplicate (stored_order r.order_id (recorded r t)) r.enrichment_hash ≡ true
unfolding to_processed processed_row
recorded-is_duplicate r t won = rw (find_row-recorded r t won) (eq_refl r.enrichment_hash)

module _ (env : Env) (settings : ProcessSettings) (job : Job) where
  -- the hash of the job is stored for its order
  abbrev IsStored : World → Type 0
  IsStored v = is_duplicate (stored_order job.order.order_id v.tables) job.preview_hash ≡ true

  on_failure_raises : (e : Error) (v : World) → Ensures IsStored (on_failure env settings job e v)
  unfolding on_failure
  on_failure_raises e v =
      Ensures-after IsStored (persist env (result_of job false (failed_event env job e)) v) _
        λ _ u. Ensures-after IsStored (give_up env settings job u) _ λ _ t. tt

  persist_stores :
      (event : Fields) (v : World) → Ensures IsStored (persist env (result_of job true event) v)
  persist_stores event v = elim (persist-cases env (result_of job true event) v) [
    | inl stored ↦ rw stored (recorded-is_duplicate (result_of job true event) v.tables refl)
    | inr (e, raised) ↦ rw raised tt
  ]

  enrich_stores : (v : World) → Ensures IsStored (enrich env settings job v)
  unfolding enrich submit_and_persist
  enrich_stores v =
      Ensures-handle IsStored (submit_and_persist env settings job v) _
        (Ensures-after IsStored (submit_enrichment env _ _ _ v) _ λ _ u.
          Ensures-continue IsStored IsStored
            (persist env (result_of job true (succeeded_event job)) u) _
            (persist_stores (succeeded_event job) u) λ _ t h. h)
        (on_failure_raises)

  conclude_stores :
      (v : World)
      → Ensures IsStored (conclude env settings job (stored_order job.order.order_id v.tables) v)
  unfolding conclude record_no_match
  conclude_stores v =
      Ensures-if IsStored (is_duplicate (stored_order job.order.order_id v.tables) job.preview_hash)
        (pure (true, job.correlation_id, true))
        (if not (has_matches job.decision)
          then record_no_match env job
          else enrich env settings job)
        v (λ duplicate. duplicate)
        λ _.
          Ensures-if IsStored (not (has_matches job.decision)) (record_no_match env job)
            (enrich env settings job) v
            (λ _.
              Ensures-continue IsStored IsStored
                (persist env (result_of job true (no_rules_event job)) v)
                (λ _. pure (true, job.correlation_id, false))
                (persist_stores (no_rules_event job) v) λ _ t h. h)
            (λ _. enrich_stores v)

  pub conclude_duplicate :
      (p : Option ProcessedOrder) (v : World)
      → is_duplicate p job.preview_hash ≡ true
      → conclude env settings job p v ≡ (ok (true, job.correlation_id, true), v)
  unfolding conclude
  conclude_duplicate p v duplicate = rw duplicate

module _ (env : Env) (settings : ProcessSettings) (order : ExternalOrder)
    (rules : List EnrichmentRule) (now : Datetime) (w : World) where
  process_order_stores :
      {d : EnrichmentDecision} {hash : String} {x : Bool × String × Bool}
      → evaluate env.runtime order rules now ≡ ok d
      → compute_hash env.runtime order d.enriched_fields ≡ ok hash
      → (process_order env settings order rules now w).0 ≡ ok x
      → is_duplicate
          (stored_order order.order_id (process_order env settings order rules now w).1.tables)
          hash
        ≡ true
  process_order_stores {d} {hash} e h done =
      let first = process_order-eq env settings order rules now w e h in
      let job = job_of env order now w d hash in
      ap (λ z. is_duplicate (stored_order order.order_id z.1.tables) hash) first
      ∙ Ensures-elim (IsStored env settings job)
          (conclude env settings job (stored_order order.order_id w.tables)
            (next_id env settings order rules now w))
          (conclude_stores env settings job (next_id env settings order rules now w))
          (ap (λ z. z.0) (sym first) ∙ done)

module _ (env : Env) (settings : ProcessSettings) (order : ExternalOrder)
    (rules rules' : List EnrichmentRule) (now now' : Datetime) (w : World) where
  -- Once an order has been processed without an exception, processing it again is skipped as a
  -- duplicate, as long as it is enriched with the same fields, whatever rules and time produce
  -- them: nothing is submitted and the tables stay as they are.
  pub process_order_again :
      {d d' : EnrichmentDecision} {hash : String} {x : Bool × String × Bool}
      → evaluate env.runtime order rules now ≡ ok d
      → evaluate env.runtime order rules' now' ≡ ok d'
      → d'.enriched_fields ≡ d.enriched_fields
      → compute_hash env.runtime order d.enriched_fields ≡ ok hash
      → (process_order env settings order rules now w).0 ≡ ok x
      → let w' = (process_order env settings order rules now w).1 in
        process_order env settings order rules' now' w'
        ≡ (ok (true, env.ids w'.ids_given, true), record w' { ids_given = w'.ids_given + 1 })
  process_order_again {d} {d'} {hash} e e' same hashed done =
      process_order-eq env settings order rules' now' _ e'
        (ap (compute_hash env.runtime order) same ∙ hashed)
      ∙ conclude_duplicate env settings _ _ _
          (process_order_stores env settings order rules now w e hashed done)
