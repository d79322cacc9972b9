-- ===== src/Application/Facade/Poisoned.antt =====
-- A polling cycle over orders with a stored rule whose conditions raise.
use mathlib.Core.List.Permᴰ
use rules_enrichment_daemon.Prelude.{
  ◌≡◌, refl, true, false, Option, none, some, List, All, All-map, length, filter,
}
use rules_enrichment_daemon.Prelude.Any.{Any, Any-map, Any-perm, Any-filter, Any-of_map}
use rules_enrichment_daemon.Prelude.Sort.{sort_by-perm}
use rules_enrichment_daemon.Domain.Errors.{ok, err}
use rules_enrichment_daemon.Domain.Datetime.{Datetime}
use rules_enrichment_daemon.Domain.Order.{ExternalOrder}
use rules_enrichment_daemon.Domain.Value.{Runtime}
use rules_enrichment_daemon.Domain.Rule.{is_valid_at}
use rules_enrichment_daemon.Domain.Evaluation.Raising.{Raises, evaluate-Raises}
use rules_enrichment_daemon.Persistence.Models.{Tables, EnrichmentRuleModel}
use rules_enrichment_daemon.Persistence.Mappers.{to_rule}
use rules_enrichment_daemon.Persistence.Repositories.{in_scope, is_listed, select_rules}
use rules_enrichment_daemon.Application.Environment.{Env}
use rules_enrichment_daemon.Application.ProcessOrder.Idempotency.{process_order-evaluation_error}
use rules_enrichment_daemon.Application.RulesCache.{Daemon}
use rules_enrichment_daemon.Application.RulesCache.Fresh.{IsCurrent, rules_at}
use rules_enrichment_daemon.Application.Facade.{FacadeSettings, CycleReport, run_once}
use rules_enrichment_daemon.Application.Facade.Cycle.{scope_of}
use rules_enrichment_daemon.Application.Facade.Unmoved.{IsSame, Leaves, run_once-Leaves}

-- the row is switched on for good, its scope fits the order, and its conditions raise for the order
pub record Poisons (rt : Runtime) (order : ExternalOrder) (m : EnrichmentRuleModel) : Type 0 where
  pub active : m.is_active ≡ true
  pub no_start : m.valid_from ≡ none
  pub no_end : m.valid_to ≡ none
  pub client : in_scope (some order.client_code) m.client_code ≡ true
  pub facility : in_scope (some order.facility_code) m.facility_code ≡ true
  pub spot : in_scope order.zone_code m.zone_code ≡ true
  pub raises : Raises rt order (to_rule m)

module _ (rt : Runtime) (order : ExternalOrder) where
  Poisons-listed :
      (ts : Datetime) (m : EnrichmentRuleModel)
      → Poisons rt order m
      → is_listed ts (some order.client_code) (some order.facility_code) order.zone_code m ≡ true
  unfolding is_listed
  Poisons-listed ts m p = rw (p.active, p.no_start, p.no_end, p.client, p.facility, p.spot) refl

  Poisons-valid :
      (now : Datetime) (m : EnrichmentRuleModel)
      → Poisons rt order m
      → is_valid_at (to_rule m) now ≡ true
  unfolding is_valid_at to_rule
  Poisons-valid now m p = rw (p.active, p.no_start, p.no_end) refl

  rules_at-Raises :
      (now ts : Datetime) (rows : List EnrichmentRuleModel)
      → Any (Poisons rt order) rows
      → Any
          (λ r. (is_valid_at r now ≡ true) × Raises rt order r)
          (rules_at ts (scope_of order) rows)
  unfolding select_rules
  rules_at-Raises now ts rows h =
      let listed =
        is_listed ts (some order.client_code) (some order.facility_code) order.zone_code in
      let kept =
        Any-filter (Poisons rt order) listed rows
          (Any-map _ _ (λ m p. (Poisons-listed ts m p, p)) rows h) in
      let sorted =
        Any-perm (Poisons rt order)
          (Permᴰ.symm (sort_by-perm (λ m. m.priority) (filter listed rows))) kept in
      Any-of_map _ to_rule _ (Any-map _ _ (λ m p. (Poisons-valid now m p, p.raises)) _ sorted)

module _ (env : Env) (settings : FacadeSettings) where
  Poisons-Leaves :
      (t : Tables) (order : ExternalOrder)
      → Any (Poisons env.runtime order) t.enrichment_rules
      → Leaves env settings false t order
  Poisons-Leaves t order h = record {
    leaves = λ now ts w fresh same.
        let rules = rules_at ts (scope_of order) t.enrichment_rules in
        let (e, raised) =
          evaluate-Raises env.runtime order rules now
            (rules_at-Raises env.runtime order now ts t.enrichment_rules h) in
        (err e, process_order-evaluation_error env settings.process order rules now w raised, refl);
  }

  -- When the table of rules has, for every fetched order, a row without time bounds that is switched
  -- on, whose scope fits the order and whose conditions raise for it, and the cache holds what the
  -- table has, a polling cycle returns with every order counted as failed. No request is sent, and
  -- nothing is stored or published: no attempt, event or dead letter tells of the failures.
  pub run_once-Poisons :
      (updated_since : Option Datetime) (d : Daemon) {orders : List ExternalOrder}
      → env.fetch d.world.fetches updated_since settings.poll_batch_size ≡ ok orders
      → All (λ o. Any (Poisons env.runtime o) d.world.tables.enrichment_rules) orders
      → IsCurrent d.world.tables.enrichment_rules d.cache
      → (report : CycleReport) × (d' : Daemon) × (run_once env settings updated_since d
          ≡ (ok report, d'))
        × (report.fetched ≡ length orders)
        × (report.success ≡ 0)
        × (report.failed ≡ length orders)
        × IsSame d.world d'.world
  run_once-Poisons updated_since d {orders} fetched poisoned current =
      run_once-Leaves env settings false updated_since d fetched
        (All-map _ _ (Poisons-Leaves d.world.tables) orders poisoned) current
