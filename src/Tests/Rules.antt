-- ===== src/Tests/Rules.antt =====
-- Rules and their evaluation.
use rules_enrichment_daemon.Prelude.{◌≡◌, refl, true, [], ◌∷◌, filter}
use rules_enrichment_daemon.Domain.Errors.{Error, ok, err, invalid_rule_definition}
use rules_enrichment_daemon.Domain.Json.{str, end, field}
use rules_enrichment_daemon.Domain.Json.Dict.{get}
use rules_enrichment_daemon.Domain.Evaluation.{EnrichmentDecision, evaluate}
use rules_enrichment_daemon.Domain.Evaluation.Decisions.{
  evaluate-get, Selects, evaluate-matched, evaluate-perm, matching,
}
use rules_enrichment_daemon.Domain.Evaluation.Matching.{
  is_match, first_error, summary, outcome, evaluate-eq, last_entry,
}
use rules_enrichment_daemon.Domain.Evaluation.{
  apply_rules, active_rules, matches, explain, record_match, rule_detail,
}
use rules_enrichment_daemon.Prelude.Sort.{sort_by}
use rules_enrichment_daemon.Domain.Rule.{is_valid_at, as_utc, as_utc_optional}
use rules_enrichment_daemon.Domain.Datetime.{
  instant, compare_ℤ, datetime_compare, datetime_eq, is_before,
}
use rules_enrichment_daemon.Prelude.Int.{◌-ℤ◌}
use rules_enrichment_daemon.Domain.Specification.{
  op_of, is_satisfied_by, test_predicate, test_value, extract, apply_op, extract_from, step,
}
use rules_enrichment_daemon.Domain.Specification.Factory.{from_json, predicate_of}
use rules_enrichment_daemon.Domain.Json.{truthy}
use rules_enrichment_daemon.Domain.Json.Dict.{get_or_null, has, set, update}
use rules_enrichment_daemon.Domain.Json.Compare.{compare_numbers, json_eq}
use rules_enrichment_daemon.Domain.Value.{
  address_attribute, getattr, order_attribute, value_eq, py_str,
}
use rules_enrichment_daemon.Prelude.Text.{split_dots}
use mathlib.Core.List.{Permᴰ}
use mathlib.Core.Logic.{◌↔◌}
use rules_enrichment_daemon.Domain.Evaluation.{no_progress, decision_of}
use rules_enrichment_daemon.Domain.Rule.Validity.{IsValidAt, is_valid_at_iff}
use rules_enrichment_daemon.Domain.Specification.{eq, gt, Spec, or_spec, predicate, none_left, spec}
use rules_enrichment_daemon.Domain.Specification.Semantics.{Answers, is_satisfied_by_iff}
use rules_enrichment_daemon.Domain.Specification.RoundTrip.{to_json, from_json-to_json}
use rules_enrichment_daemon.Domain.Json.{int}
use rules_enrichment_daemon.Prelude.Int.{pos}
use rules_enrichment_daemon.Tests.Samples.{
  broken, runtime, utc, sample_order, sample_rules, spain, standard,
}

abbrev pub decision : EnrichmentDecision
decision = record {
  order_id = "ORD-1";
  matched_rules = "RULE-DEST-ES-001" ∷ "RULE-TYPE-001" ∷ [];
  enriched_fields = field "routing_group" (str "ROAD") end;
  decision_timestamp = utc 500;
  explanation = "Matched 1 rules";
  applied_rule_details =
      field "rule_id" (str "RULE-DEST-ES-001")
        (field "rule_type" (str "DESTINATION") (field "description" (str "matched priority 1") end))
      ∷ field "rule_id" (str "RULE-TYPE-001") (
          field "rule_type" (str "DESTINATION")
            (field "description" (str "matched priority 1") end))
      ∷ [];
}

pub evaluated : evaluate runtime sample_order sample_rules (utc 500) ≡ ok decision
unfolding evaluate apply_rules active_rules matches explain record_match rule_detail sort_by
    is_valid_at as_utc as_utc_optional instant compare_ℤ datetime_compare datetime_eq is_before ◌-ℤ◌
    op_of is_satisfied_by test_predicate test_value extract apply_op extract_from step from_json
    predicate_of truthy get_or_null has set update compare_numbers json_eq address_attribute getattr
    order_attribute value_eq split_dots
evaluated = refl

pub evaluated_later :
    evaluate runtime sample_order (spain ∷ standard ∷ []) (utc 900)
    ≡ ok (record decision { decision_timestamp = utc 900 })
unfolding evaluate apply_rules active_rules matches explain record_match rule_detail sort_by
    is_valid_at as_utc as_utc_optional instant compare_ℤ datetime_compare datetime_eq is_before ◌-ℤ◌
    op_of is_satisfied_by test_predicate test_value extract apply_op extract_from step from_json
    predicate_of truthy get_or_null has set update compare_numbers json_eq address_attribute getattr
    order_attribute value_eq split_dots
evaluated_later = refl

abbrev pub unsupported_like : Error
unsupported_like = invalid_rule_definition "unsupported operator: like"

evaluated_broken : evaluate runtime sample_order (broken ∷ []) (utc 500) ≡ err unsupported_like
unfolding evaluate apply_rules active_rules matches explain record_match rule_detail sort_by
    is_valid_at as_utc as_utc_optional instant compare_ℤ datetime_compare datetime_eq is_before ◌-ℤ◌
    op_of is_satisfied_by test_predicate test_value extract apply_op extract_from step from_json
    predicate_of truthy get_or_null has set update compare_numbers json_eq address_attribute getattr
    order_attribute value_eq split_dots py_str
evaluated_broken = refl

evaluate-matched_example : Selects runtime sample_order (utc 500) sample_rules decision
evaluate-matched_example = evaluate-matched runtime sample_order (utc 500) sample_rules evaluated

evaluate-get_example :
    get "routing_group" decision.enriched_fields
    ≡ last_entry "routing_group" (matching runtime sample_order (utc 500) sample_rules)
evaluate-get_example =
    evaluate-get runtime sample_order (utc 500) sample_rules "routing_group" evaluated

evaluate-eq_example :
    evaluate runtime sample_order (broken ∷ sample_rules) (utc 500)
    ≡ outcome (first_error runtime sample_order (active_rules (broken ∷ sample_rules) (utc 500))) (
        decision_of runtime sample_order (utc 500) (
          summary runtime
            (filter
              (is_match runtime sample_order)
              (active_rules (broken ∷ sample_rules) (utc 500)))
            no_progress))
evaluate-eq_example = evaluate-eq runtime sample_order (broken ∷ sample_rules) (utc 500)

evaluate-perm_example :
    evaluate runtime sample_order (standard ∷ spain ∷ []) (utc 500)
    ≡ evaluate runtime sample_order (spain ∷ standard ∷ []) (utc 500)
evaluate-perm_example =
    evaluate-perm runtime sample_order (utc 500) (Permᴰ.swap refl refl) ((λ same. cc, tt), (tt, tt))

-- Spain, or a test that raises
abbrev spec_sample : Spec
spec_sample = or_spec (
    spec (predicate (str "destination_address.country_code") eq (str "ES"))
      (spec (predicate (str "client_code") gt (int (pos 1))) none_left))

is_satisfied_by_iff_example :
    (is_satisfied_by runtime sample_order spec_sample ≡ ok true)
    ↔ Answers runtime sample_order spec_sample (ok true)
is_satisfied_by_iff_example = is_satisfied_by_iff runtime sample_order spec_sample (ok true)

is_valid_at_iff_example : (is_valid_at spain (utc 500) ≡ true) ↔ IsValidAt spain (instant (utc 500))
is_valid_at_iff_example = is_valid_at_iff spain (utc 500)

from_json-to_json_example : from_json runtime (to_json spec_sample) ≡ ok spec_sample
unfolding truthy
from_json-to_json_example = from_json-to_json runtime spec_sample (refl, (refl, tt))
