-- ===== src/Domain/Evaluation.antt =====
-- domain/services/rule_evaluation_service.py and domain/entities/enrichment_decision.py: the valid
-- rules, by priority, each applied where its conditions hold.
pub mod Matching
pub mod Raising
pub mod Decisions
use Prim.Native.String.{◌++◌}
use rules_enrichment_daemon.Prelude.{
  ℕ, zero, suc, String, Bool, true, false, List, [], ◌∷◌, ltb, filter, length, if◌then◌else◌,
}
use rules_enrichment_daemon.Prelude as Prelude
use rules_enrichment_daemon.Prelude.Int.{pos}
use rules_enrichment_daemon.Prelude.Sort.{sort_by}
use rules_enrichment_daemon.Domain.Errors.{Result, ok, ◌>>=◌}
use rules_enrichment_daemon.Domain.Datetime.{Datetime}
use rules_enrichment_daemon.Domain.Json.{Json, int, str, obj, Fields, end, field}
use rules_enrichment_daemon.Domain.Json.Dict.{update}
use rules_enrichment_daemon.Domain.Order.{ExternalOrder}
use rules_enrichment_daemon.Domain.Value.{json, Runtime}
use rules_enrichment_daemon.Domain.Specification.{is_satisfied_by}
use rules_enrichment_daemon.Domain.Specification.Factory.{from_json}
use rules_enrichment_daemon.Domain.Rule.{EnrichmentRule, is_valid_at}

pub record EnrichmentDecision : Type 0 where
  pub order_id : String
  pub matched_rules : List String
  pub enriched_fields : Fields
  pub decision_timestamp : Datetime
  pub explanation : String
  pub applied_rule_details : List Fields

unfoldable pub has_matches : EnrichmentDecision → Bool
has_matches decision = ltb 0 (length decision.matched_rules)

-- the lists and the dict that the loop fills
pub record Progress : Type 0 where
  pub matched : List String
  pub details : List Fields
  pub fields : Fields

abbrev pub no_progress : Progress
no_progress = record { matched = []; details = []; fields = end }

unfoldable pub rule_detail : Runtime → EnrichmentRule → Fields
rule_detail rt rule = field "rule_id" (str rule.rule_id) (
    field "rule_type" (str rule.rule_type)
      (field "description" (str ("matched priority " ++ rt.str_of (json (int rule.priority)))) end))

-- the body of the `if`
unfoldable pub record_match : Runtime → EnrichmentRule → Progress → Progress
record_match rt rule p = record {
  matched = Prelude.◌++◌ p.matched (rule.rule_id ∷ []);
  details = Prelude.◌++◌ p.details (rule_detail rt rule ∷ []);
  fields = update p.fields rule.enrichment_json;
}

-- `self._spec_factory.from_json(rule.conditions_json).is_satisfied_by(order)`
unfoldable pub matches : Runtime → ExternalOrder → EnrichmentRule → Result Bool
matches rt order rule = do
  spec ← from_json rt (obj rule.conditions_json)
  is_satisfied_by rt order spec

-- the loop over the active rules
unfoldable pub apply_rules :
    Runtime → ExternalOrder → List EnrichmentRule → Progress → Result Progress
apply_rules rt order [] p = ok p
apply_rules rt order (rule ∷ rules) p = do
  holds ← matches rt order rule
  apply_rules rt order rules (if holds then record_match rt rule p else p)

unfoldable pub explain : Runtime → List String → String
explain rt [] = "No rules matched"
explain rt (r ∷ rs) = "Matched " ++ rt.str_of (json (int (pos (length (r ∷ rs))))) ++ " rules"

-- the rules that are valid, by ascending priority; rules of one priority keep their order
unfoldable pub active_rules : List EnrichmentRule → Datetime → List EnrichmentRule
active_rules rules now = sort_by (λ r. r.priority) (filter (λ r. is_valid_at r now) rules)

abbrev pub decision_of : Runtime → ExternalOrder → Datetime → Progress → EnrichmentDecision
decision_of rt order now p = record {
  order_id = order.order_id;
  matched_rules = p.matched;
  enriched_fields = p.fields;
  decision_timestamp = now;
  explanation = explain rt p.matched;
  applied_rule_details = p.details;
}

unfoldable pub evaluate :
    Runtime → ExternalOrder → List EnrichmentRule → Datetime → Result EnrichmentDecision
evaluate rt order rules now = apply_rules rt order (active_rules rules now) no_progress >>= λ p.
    ok (decision_of rt order now p)
