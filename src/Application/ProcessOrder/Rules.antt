-- ===== src/Application/ProcessOrder/Rules.antt =====
-- An invariant of the world that every step of processing keeps is kept by processing.
use rules_enrichment_daemon.Prelude.{String, not, Option, List, leb}
use rules_enrichment_daemon.Domain.Errors.{Error, ok, err}
use rules_enrichment_daemon.Domain.Datetime.{Datetime}
use rules_enrichment_daemon.Domain.Json.{obj, end, field}
use rules_enrichment_daemon.Domain.Order.{ExternalOrder, asdict}
use rules_enrichment_daemon.Domain.Rule.{EnrichmentRule}
use rules_enrichment_daemon.Domain.Evaluation.{has_matches, evaluate}
use rules_enrichment_daemon.Domain.Processing.{ProcessedOrder}
use rules_enrichment_daemon.Exec.{lift}
use rules_enrichment_daemon.Exec.Keeps.{
  Keeps, Keeps-bind, Keeps-then, Keeps-same, Keeps-if, Keeps-try_except,
}
use rules_enrichment_daemon.Persistence.Repositories.{get_next_attempt_number, get_by_order_id}
use rules_enrichment_daemon.Application.Environment.{Env, World, new_id, in_uow}
use rules_enrichment_daemon.Application.Payload.{
  EnrichmentPayloadDto, submit_enrichment, compute_hash,
}
use rules_enrichment_daemon.Application.Recording.{ProcessingResult, persist, move_to_dead_letter}
use rules_enrichment_daemon.Application.ProcessOrder.{
  ProcessSettings, Job, is_duplicate, submit_and_persist, give_up, on_failure, enrich,
  record_no_match, conclude, process_order,
}

module _ (env : Env) (settings : ProcessSettings) {P : World → Type 0}
    (keep_persist : (r : ProcessingResult) → Keeps P (persist env r))
    (keep_dead_letter : (job : Job) (reason : String)
      → Keeps P (
          move_to_dead_letter env job.order.order_id job.correlation_id reason
            (field "order" (obj (asdict job.order)) end)
            job.now)) where
  Keeps-give_up : (job : Job) → Keeps P (give_up env settings job)
  unfolding give_up
  Keeps-give_up job =
      Keeps-if (leb settings.max_processing_attempts job.attempt_number) _ _
        (keep_dead_letter job "max attempts exceeded") (Keeps-same (ok tt))

  pub Keeps-on_failure : (job : Job) (e : Error) → Keeps P (on_failure env settings job e)
  unfolding on_failure
  Keeps-on_failure job e =
      Keeps-then _ _ (keep_persist _) (Keeps-then _ _ (Keeps-give_up job) (Keeps-same (err _)))

module _ (env : Env) (settings : ProcessSettings) {P : World → Type 0}
    (keep_persist : (r : ProcessingResult) → Keeps P (persist env r))
    (keep_submit : (id : String) (p : EnrichmentPayloadDto) (c : String)
      → Keeps P (submit_enrichment env id p c))
    (keep_dead_letter : (job : Job) (reason : String)
      → Keeps P (
          move_to_dead_letter env job.order.order_id job.correlation_id reason
            (field "order" (obj (asdict job.order)) end)
            job.now)) where
  Keeps-enrich : (job : Job) → Keeps P (enrich env settings job)
  unfolding enrich submit_and_persist
  Keeps-enrich job =
      Keeps-try_except _ _
        (Keeps-then _ _ (keep_submit _ _ _) (Keeps-then _ _ (keep_persist _) (Keeps-same (ok _))))
        (Keeps-on_failure env settings keep_persist keep_dead_letter job)

  pub Keeps-conclude :
      (job : Job) (processed : Option ProcessedOrder)
      → Keeps P (conclude env settings job processed)
  unfolding conclude record_no_match
  Keeps-conclude job processed =
      Keeps-if (is_duplicate processed job.preview_hash) _ _ (Keeps-same (ok _)) (
        Keeps-if (not (has_matches job.decision)) _ _
          (Keeps-then _ _ (keep_persist _) (Keeps-same (ok _))) (Keeps-enrich job))

  Keeps-next_attempt : (id : String) → Keeps P (in_uow (get_next_attempt_number id))
  unfolding in_uow get_next_attempt_number
  Keeps-next_attempt id = record { stays = λ w h. h }

  Keeps-get_by_order_id : (id : String) → Keeps P (in_uow (get_by_order_id id))
  unfolding in_uow get_by_order_id
  Keeps-get_by_order_id id = record { stays = λ w h. h }

  pub Keeps-process_order :
      (order : ExternalOrder) (rules : List EnrichmentRule) (now : Datetime)
      → Keeps P (new_id env)
      → Keeps P (process_order env settings order rules now)
  unfolding process_order
  Keeps-process_order order rules now keep_id = Keeps-bind (new_id env) _ keep_id λ correlation_id.
      Keeps-bind (in_uow (get_next_attempt_number order.order_id)) _
        (Keeps-next_attempt order.order_id)
        λ attempt_number.
          Keeps-bind (lift (evaluate env.runtime order rules now)) _
            (Keeps-same (evaluate env.runtime order rules now))
            λ decision.
              Keeps-bind (lift (compute_hash env.runtime order decision.enriched_fields)) _
                (Keeps-same (compute_hash env.runtime order decision.enriched_fields))
                λ preview_hash.
                  Keeps-bind (in_uow (get_by_order_id order.order_id)) _
                    (Keeps-get_by_order_id order.order_id)
                    λ processed.
                      Keeps-conclude
                        (record {
                          order = order;
                          now = now;
                          correlation_id = correlation_id;
                          attempt_number = attempt_number;
                          decision = decision;
                          preview_hash = preview_hash;
                        })
                        processed
