-- ===== src/Tests/Quiet.antt =====
-- A cycle over an order that is enriched already.
use rules_enrichment_daemon.Prelude.{◌≡◌, refl, none, [], ◌∷◌, length}
use rules_enrichment_daemon.Domain.Errors.{ok}
use rules_enrichment_daemon.Domain.Rule.{EnrichmentRule, is_valid_at}
use rules_enrichment_daemon.Domain.Evaluation.{EnrichmentDecision, evaluate}
use rules_enrichment_daemon.Domain.Processing.{ProcessedOrder}
use rules_enrichment_daemon.Persistence.Models.{Tables, no_rows}
use rules_enrichment_daemon.Persistence.Mappers.{rule_row, processed_row}
use rules_enrichment_daemon.Application.Payload.{compute_hash}
use rules_enrichment_daemon.Application.RulesCache.{Daemon}
use rules_enrichment_daemon.Application.Facade.{FacadeSettings, CycleReport, run_once}
use rules_enrichment_daemon.Application.Facade.Quiet.{IsKnown, run_once-IsSame}
use rules_enrichment_daemon.Application.Facade.Unmoved.{IsSame}
use rules_enrichment_daemon.Domain.Evaluation.{
  apply_rules, active_rules, matches, explain, record_match, rule_detail,
}
use rules_enrichment_daemon.Prelude.Sort.{sort_by}
use rules_enrichment_daemon.Domain.Rule.{as_utc, as_utc_optional}
use rules_enrichment_daemon.Domain.Specification.{
  op_of, is_satisfied_by, test_predicate, test_value, extract, apply_op, extract_from, step,
}
use rules_enrichment_daemon.Domain.Specification.Factory.{from_json, predicate_of}
use rules_enrichment_daemon.Domain.Json.{truthy, is_serializable, str, end, field}
use rules_enrichment_daemon.Domain.Json.Dict.{get_or_null, has, set, update}
use rules_enrichment_daemon.Domain.Json.Compare.{compare_numbers, json_eq}
use rules_enrichment_daemon.Domain.Value.{address_attribute, getattr, order_attribute, value_eq}
use rules_enrichment_daemon.Prelude.Text.{split_dots}
use rules_enrichment_daemon.Persistence.Repositories.{select_rules, is_listed, find_row}
use rules_enrichment_daemon.Persistence.Mappers.{to_rule, to_processed}
use rules_enrichment_daemon.Domain.Json.Canonical.{canonical, insert_field}
use rules_enrichment_daemon.Domain.Datetime.{Datetime}
use rules_enrichment_daemon.Tests.Rules.{decision}
use rules_enrichment_daemon.Tests.Samples.{
  utc, sample_order, spain, sample_env, sample_settings, world_of,
}

-- a rule without time bounds
abbrev always_spain : EnrichmentRule
always_spain = record spain { valid_from = none }

abbrev enriched : ProcessedOrder
enriched = record {
  order_id = "ORD-1";
  enrichment_hash = "digest";
  processed_at = utc 300;
  correlation_id = "run-0";
}

abbrev tables : Tables
tables = record no_rows {
  enrichment_rules = rule_row always_spain ∷ [];
  processed_orders = processed_row enriched ∷ [];
}

abbrev settings : FacadeSettings
settings = record { process = sample_settings; poll_batch_size = 50; rule_cache_ttl_seconds = 60 }

abbrev daemon : Daemon
daemon = record { world = world_of tables; cache = [] }

abbrev decision_at : Datetime → EnrichmentDecision
decision_at now = record decision {
  enriched_fields = field "routing_group" (str "IBERIA") end;
  matched_rules = "RULE-DEST-ES-001" ∷ [];
  decision_timestamp = now;
  applied_rule_details =
      field "rule_id" (str "RULE-DEST-ES-001")
        (field "rule_type" (str "DESTINATION") (field "description" (str "matched priority 1") end))
      ∷ [];
}

sample_order-IsKnown : IsKnown sample_env settings tables sample_order
unfolding evaluate apply_rules active_rules matches explain record_match rule_detail sort_by
    is_valid_at as_utc as_utc_optional op_of is_satisfied_by test_predicate test_value extract
    apply_op extract_from step from_json predicate_of truthy get_or_null has set update
    compare_numbers json_eq address_attribute getattr order_attribute value_eq split_dots
    select_rules is_listed to_rule rule_row compute_hash is_serializable find_row to_processed
    processed_row canonical insert_field
sample_order-IsKnown = record {
  known = λ now ts fresh. (decision_at now, "digest", refl, refl, refl);
}

run_once-IsSame_example :
    (report : CycleReport) × (d' : Daemon) × (run_once sample_env settings none daemon
      ≡ (ok report, d'))
    × (report.fetched ≡ length (sample_order ∷ []))
    × (report.success ≡ length (sample_order ∷ []))
    × (report.failed ≡ 0)
    × IsSame daemon.world d'.world
run_once-IsSame_example =
    run_once-IsSame sample_env settings none daemon refl (sample_order-IsKnown, tt) tt
