-- ===== src/Tests/Poisoned.antt =====
-- A cycle over an order that a malformed rule of the table fits.
use rules_enrichment_daemon.Prelude.{◌≡◌, refl, none, inl, inr, [], ◌∷◌, length}
use rules_enrichment_daemon.Domain.Errors.{ok}
use rules_enrichment_daemon.Domain.Rule.{EnrichmentRule}
use rules_enrichment_daemon.Domain.Evaluation.{matches}
use rules_enrichment_daemon.Domain.Specification.{
  op_of, is_satisfied_by, test_predicate, test_value, extract, apply_op, extract_from, step,
}
use rules_enrichment_daemon.Domain.Specification.Factory.{from_json, predicate_of}
use rules_enrichment_daemon.Domain.Json.{truthy}
use rules_enrichment_daemon.Domain.Json.Dict.{get_or_null, has}
use rules_enrichment_daemon.Domain.Value.{py_str}
use rules_enrichment_daemon.Persistence.Models.{Tables, no_rows}
use rules_enrichment_daemon.Persistence.Mappers.{rule_row, to_rule}
use rules_enrichment_daemon.Application.RulesCache.{Daemon}
use rules_enrichment_daemon.Application.Facade.{FacadeSettings, CycleReport, run_once}
use rules_enrichment_daemon.Application.Facade.Poisoned.{Poisons, run_once-Poisons}
use rules_enrichment_daemon.Application.Facade.Unmoved.{IsSame}
use rules_enrichment_daemon.Tests.Rules.{unsupported_like}
use rules_enrichment_daemon.Tests.Samples.{
  broken, spain, runtime, sample_order, sample_env, sample_settings, world_of,
}

-- a malformed rule without time bounds
abbrev always_broken : EnrichmentRule
always_broken = record broken { valid_from = none }

abbrev tables : Tables
tables = record no_rows { enrichment_rules = rule_row spain ∷ rule_row always_broken ∷ [] }

abbrev settings : FacadeSettings
settings = record { process = sample_settings; poll_batch_size = 50; rule_cache_ttl_seconds = 60 }

abbrev daemon : Daemon
daemon = record { world = world_of tables; cache = [] }

always_broken-Poisons : Poisons runtime sample_order (rule_row always_broken)
unfolding rule_row to_rule matches from_json predicate_of op_of is_satisfied_by test_predicate
    test_value extract apply_op extract_from step truthy get_or_null has py_str
always_broken-Poisons = record {
  active = refl;
  no_start = refl;
  no_end = refl;
  client = refl;
  facility = refl;
  spot = refl;
  raises = (unsupported_like, refl);
}

run_once-Poisons_example :
    (report : CycleReport) × (d' : Daemon) × (run_once sample_env settings none daemon
      ≡ (ok report, d'))
    × (report.fetched ≡ length (sample_order ∷ []))
    × (report.success ≡ 0)
    × (report.failed ≡ length (sample_order ∷ []))
    × IsSame daemon.world d'.world
run_once-Poisons_example =
    run_once-Poisons sample_env settings none daemon refl (inr (inl always_broken-Poisons), tt) tt
