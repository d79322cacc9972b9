-- ===== src/Application/Facade/Quiet.antt =====
-- A polling cycle over orders that are enriched already.
use rules_enrichment_daemon.Prelude.{
  String, ap, All-map, ◌≡◌, refl, ◌∙◌, true, Option, List, All, length,
}
use rules_enrichment_daemon.Domain.Errors.{ok}
use rules_enrichment_daemon.Domain.Datetime.{Datetime}
use rules_enrichment_daemon.Domain.Order.{ExternalOrder}
use rules_enrichment_daemon.Domain.Rule.{EnrichmentRule}
use rules_enrichment_daemon.Domain.Evaluation.{EnrichmentDecision, evaluate}
use rules_enrichment_daemon.Persistence.Models.{Tables}
use rules_enrichment_daemon.Application.Environment.{Env, World}
use rules_enrichment_daemon.Application.Payload.{compute_hash}
use rules_enrichment_daemon.Application.ProcessOrder.{
  ProcessSettings, is_duplicate, conclude, process_order,
}
use rules_enrichment_daemon.Application.ProcessOrder.Idempotency.{
  stored_order, next_id, process_order-eq,
}
use rules_enrichment_daemon.Application.RulesCache.{Daemon, is_fresh}
use rules_enrichment_daemon.Application.RulesCache.Fresh.{IsCurrent, rules_at}
use rules_enrichment_daemon.Application.Facade.{FacadeSettings, CycleReport, run_once}
use rules_enrichment_daemon.Application.Facade.Cycle.{scope_of}
use rules_enrichment_daemon.Application.Facade.Unmoved.{IsSame, Leaves, run_once-Leaves}

-- the tables have the hash of the order's enrichment, at any time and under the rules of any earlier
-- time that the cache may still answer with
pub record IsKnown (env : Env) (settings : FacadeSettings) (t : Tables) (order : ExternalOrder)
    : Type 0 where
  pub known :
      (now ts : Datetime)
      → is_fresh settings.rule_cache_ttl_seconds now ts ≡ true
      → (d : EnrichmentDecision) × (hash : String) × (evaluate env.runtime order
            (rules_at ts (scope_of order) t.enrichment_rules)
            now
          ≡ ok d)
        × (compute_hash env.runtime order d.enriched_fields ≡ ok hash)
        × (is_duplicate (stored_order order.order_id t) hash ≡ true)

process_order-known :
    (env : Env) (settings : ProcessSettings) (order : ExternalOrder) (rules : List EnrichmentRule)
    (now : Datetime) (w : World) {d : EnrichmentDecision} {hash : String}
    → evaluate env.runtime order rules now ≡ ok d
    → compute_hash env.runtime order d.enriched_fields ≡ ok hash
    → is_duplicate (stored_order order.order_id w.tables) hash ≡ true
    → process_order env settings order rules now w
      ≡ (ok (true, env.ids w.ids_given, true), next_id env settings order rules now w)
unfolding conclude
process_order-known env settings order rules now w evaluated hashed known =
    process_order-eq env settings order rules now w evaluated hashed ∙ rw known refl

module _ (env : Env) (settings : FacadeSettings) where
  IsKnown-Leaves :
      (t : Tables) (order : ExternalOrder)
      → IsKnown env settings t order
      → Leaves env settings true t order
  IsKnown-Leaves t order k = record {
    leaves = λ now ts w fresh same.
        let (decision, hash, evaluated, hashed, stored) = k.known now ts fresh in
        let rules = rules_at ts (scope_of order) t.enrichment_rules in
        (
          ok (true, env.ids w.ids_given, true),
          process_order-known env settings.process order rules now w evaluated hashed
              (ap (λ x. is_duplicate (stored_order order.order_id x) hash) same ∙ stored),
          refl,
        );
  }

  -- When the tables have the hash of every fetched order, at the rules of any time that the cache
  -- may answer with, and the cache holds what the table of rules has, a polling cycle returns with
  -- every order counted as a success, and leaves the tables as they are without a request to the
  -- external API.
  pub run_once-IsSame :
      (updated_since : Option Datetime) (d : Daemon) {orders : List ExternalOrder}
      → env.fetch d.world.fetches updated_since settings.poll_batch_size ≡ ok orders
      → All (IsKnown env settings d.world.tables) orders
      → IsCurrent d.world.tables.enrichment_rules d.cache
      → (report : CycleReport) × (d' : Daemon) × (run_once env settings updated_since d
          ≡ (ok report, d'))
        × (report.fetched ≡ length orders)
        × (report.success ≡ length orders)
        × (report.failed ≡ 0)
        × IsSame d.world d'.world
  run_once-IsSame updated_since d {orders} fetched known current =
      run_once-Leaves env settings true updated_since d fetched
        (All-map _ _ (IsKnown-Leaves d.world.tables) orders known) current
