-- ===== src/Domain/Evaluation/Matching.antt =====
-- The evaluation loop against a declarative account: the first rule that raises decides, or else
-- the decision lists the matching rules and merges their fields.
use mathlib.Core.List.{append_assoc, append-nil}
use rules_enrichment_daemon.Prelude.{
  String, ◌≡◌, refl, Bool, true, false, Option, none, some, List, [], ◌∷◌, ◌++◌, map, ap, sym, ◌∙◌,
  inl, inr, filter,
}
use rules_enrichment_daemon.Domain.Errors.{Error, Result, ok, err, ◌>>=◌, Result-cases}
use rules_enrichment_daemon.Domain.Datetime.{Datetime}
use rules_enrichment_daemon.Domain.Json.{Json, Fields}
use rules_enrichment_daemon.Domain.Json.Dict.{
  get, update, get_last, get-update, or_else, or_else_assoc,
}
use rules_enrichment_daemon.Domain.Order.{ExternalOrder}
use rules_enrichment_daemon.Domain.Value.{Runtime}
use rules_enrichment_daemon.Domain.Rule.{EnrichmentRule}
use rules_enrichment_daemon.Domain.Evaluation.{
  Progress, no_progress, rule_detail, record_match, matches, apply_rules, active_rules, decision_of,
  evaluate,
}

-- the answer is true, and not an exception
abbrev pub holds : Result Bool → Bool
holds (ok b) = b
holds (err e) = false

abbrev pub is_match : Runtime → ExternalOrder → EnrichmentRule → Bool
is_match rt order rule = holds (matches rt order rule)

abbrev pub error_of {ℓ} : {A : Type ℓ} → Result A → Option Error
error_of (ok a) = none
error_of (err e) = some e

-- the exception of the first rule that raises one
abbrev pub first_error : Runtime → ExternalOrder → List EnrichmentRule → Option Error
first_error rt order [] = none
first_error rt order (rule ∷ rules) =
    or_else (error_of (matches rt order rule)) (first_error rt order rules)

-- the enrichments of the rules, merged in their order
abbrev pub merge : Fields → List EnrichmentRule → Fields
merge d [] = d
merge d (rule ∷ rules) = merge (update d rule.enrichment_json) rules

-- what the loop leaves when exactly these rules match
abbrev pub summary : Runtime → List EnrichmentRule → Progress → Progress
summary rt rules p = record {
  matched = p.matched ++ map (λ r. r.rule_id) rules;
  details = p.details ++ map (rule_detail rt) rules;
  fields = merge p.fields rules;
}

abbrev pub outcome {ℓ} : {A : Type ℓ} → Option Error → A → Result A
outcome none a = ok a
outcome (some e) a = err e

summary-nil : (rt : Runtime) (p : Progress) → summary rt [] p ≡ p
summary-nil rt p = rw (append-nil p.matched, append-nil p.details)

summary-record_match :
    (rt : Runtime) (rule : EnrichmentRule) (rules : List EnrichmentRule) (p : Progress)
    → summary rt rules (record_match rt rule p) ≡ summary rt (rule ∷ rules) p
unfolding record_match
summary-record_match rt rule rules p = simp append_assoc

-- The loop returns the summary of the matching rules, or raises what the first failing rule raises.
pub apply_rules-eq :
    (rt : Runtime) (order : ExternalOrder) (rules : List EnrichmentRule) (p : Progress)
    → apply_rules rt order rules p
      ≡ outcome (first_error rt order rules) (summary rt (filter (is_match rt order) rules) p)
unfolding apply_rules
apply_rules-eq rt order [] p = ap ok (sym (summary-nil rt p))
apply_rules-eq rt order (rule ∷ rules) p = elim (Result-cases (matches rt order rule)) [
  | inl (true, e) ↦ rw e (
      apply_rules-eq rt order rules (record_match rt rule p)
      ∙ ap (outcome (first_error rt order rules))
          (summary-record_match rt rule (filter (is_match rt order) rules) p))
  | inl (false, e) ↦ rw e (apply_rules-eq rt order rules p)
  | inr (x, e) ↦ rw e
]

pub outcome-eq-ok {ℓ} :
    {A : Type ℓ} (x : Option Error) (a : A) {b : A} → outcome x a ≡ ok b → (x ≡ none) × (b ≡ a)
outcome-eq-ok none a h = (refl, cc)
outcome-eq-ok (some e) a h = cc

pub holds-eq-true : (r : Result Bool) → holds r ≡ true → r ≡ ok true
holds-eq-true (ok b) h = ap ok h
holds-eq-true (err e) h = cc

bind-outcome {ℓ} :
    {A B : Type ℓ} (x : Option Error) (a : A) (f : A → B)
    → (outcome x a >>= λ y. ok (f y)) ≡ outcome x (f a)
bind-outcome none a f = refl
bind-outcome (some e) a f = refl

-- An evaluation raises what the first failing valid rule in priority order raises; when none
-- raises, its decision lists the ids and details of the matching rules and merges their fields.
pub evaluate-eq :
    (rt : Runtime) (order : ExternalOrder) (rules : List EnrichmentRule) (now : Datetime)
    → evaluate rt order rules now
      ≡ outcome (first_error rt order (active_rules rules now)) (
          decision_of rt order now
            (summary rt (filter (is_match rt order) (active_rules rules now)) no_progress))
unfolding evaluate
evaluate-eq rt order rules now =
    rw (apply_rules-eq rt order (active_rules rules now) no_progress) (bind-outcome _ _ _)

-- the entry of a key in the last of the rules that has one
abbrev pub last_entry : String → List EnrichmentRule → Option Json
last_entry key [] = none
last_entry key (rule ∷ rules) = or_else (last_entry key rules) (get_last key rule.enrichment_json)

pub get-merge :
    (key : String) (d : Fields) (rules : List EnrichmentRule)
    → get key (merge d rules) ≡ or_else (last_entry key rules) (get key d)
get-merge key d [] = refl
get-merge key d (rule ∷ rules) =
    get-merge key (update d rule.enrichment_json) rules
    ∙ ap (or_else (last_entry key rules)) (get-update key d rule.enrichment_json)
    ∙ sym (or_else_assoc (last_entry key rules) (get_last key rule.enrichment_json) (get key d))
