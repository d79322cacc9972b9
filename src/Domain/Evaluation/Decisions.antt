-- ===== src/Domain/Evaluation/Decisions.antt =====
-- What a decision says: which rules it lists, where a field's value comes from, and what it does
-- not depend on.
use mathlib.Core.List.{Permᴰ}
use mathlib.Core.List.Permᴰ
use rules_enrichment_daemon.Prelude.{
  String, ◌≡◌, refl, ◌∙◌, ap, sym, Bool, true, not, ◌&&◌, Option, none, some, List, ◌++◌, map, All,
  All-filter, All-filter_self, All-zip, All-map, filter, filter_of_All, arith,
}
use rules_enrichment_daemon.Prelude.Distinct.{AllDistinct, AllDistinct-filter}
use rules_enrichment_daemon.Prelude.Int.{ℤ}
use rules_enrichment_daemon.Prelude.Sort.{
  IsSorted, sort_by, has_key, filter_comm, filter-sort_by, filter-filter, filter-perm_split,
  sort_by-perm, All-sort_by, sort_by-IsSorted, sort_by-perm_invariant, filter-perm, IsSorted-filter,
}
use rules_enrichment_daemon.Domain.Errors.{ok}
use rules_enrichment_daemon.Domain.Datetime.{Datetime, instant}
use rules_enrichment_daemon.Domain.Json.{end}
use rules_enrichment_daemon.Domain.Json.Dict.{get, or_else}
use rules_enrichment_daemon.Domain.Order.{ExternalOrder}
use rules_enrichment_daemon.Domain.Value.{Runtime}
use rules_enrichment_daemon.Domain.Rule.{EnrichmentRule, is_valid_at}
use rules_enrichment_daemon.Domain.Rule.Validity.{IsValidAt, is_valid_at_iff}
use rules_enrichment_daemon.Domain.Evaluation.{
  EnrichmentDecision, no_progress, rule_detail, matches, active_rules, decision_of, evaluate,
}
use rules_enrichment_daemon.Domain.Evaluation.Matching.{
  holds, holds-eq-true, is_match, first_error, outcome-eq-ok, summary, evaluate-eq, last_entry,
  get-merge,
}

or_else-none {ℓ} : {A : Type ℓ} (o : Option A) → or_else o none ≡ o
or_else-none none = refl
or_else-none (some a) = refl

module _ (rt : Runtime) (order : ExternalOrder) (now : Datetime) where
  -- the valid rules whose conditions hold, by priority
  abbrev pub matching : List EnrichmentRule → List EnrichmentRule
  matching rules = filter (is_match rt order) (active_rules rules now)

  decision-eq :
      (rules : List EnrichmentRule) {d : EnrichmentDecision}
      → evaluate rt order rules now ≡ ok d
      → d ≡ decision_of rt order now (summary rt (matching rules) no_progress)
  decision-eq rules h =
      (outcome-eq-ok (first_error rt order (active_rules rules now)) _
        (sym (evaluate-eq rt order rules now) ∙ h)).1

  -- Every field of a decision has the value of the last matching rule, in priority order, that
  -- sets it, and no other field is there.
  pub evaluate-get :
      (rules : List EnrichmentRule) (key : String) {d : EnrichmentDecision}
      → evaluate rt order rules now ≡ ok d
      → get key d.enriched_fields ≡ last_entry key (matching rules)
  unfolding get
  evaluate-get rules key h =
      ap (λ (d : EnrichmentDecision). get key d.enriched_fields) (decision-eq rules h)
      ∙ get-merge key end (matching rules)
      ∙ or_else-none (last_entry key (matching rules))

  active_rules-All :
      (rules : List EnrichmentRule) → All (λ r. IsValidAt r (instant now)) (active_rules rules now)
  unfolding active_rules
  active_rules-All rules =
      All-sort_by (λ r. r.priority) (λ r. IsValidAt r (instant now)) (filter _ rules)
        (All-map _ _ (λ r v. (is_valid_at_iff r now).0 v) (filter _ rules)
          (All-filter_self (λ r. is_valid_at r now) rules))

  active_rules-IsSorted :
      (rules : List EnrichmentRule) → IsSorted (λ r. r.priority) (active_rules rules now)
  unfolding active_rules
  active_rules-IsSorted rules = sort_by-IsSorted (λ r. r.priority) (filter _ rules)

  -- valid, with conditions that hold
  abbrev pub IsApplicable : EnrichmentRule → Type 0
  IsApplicable r = IsValidAt r (instant now) × (matches rt order r ≡ ok true)

  -- the tests of both
  abbrev pub is_applicable : EnrichmentRule → Bool
  is_applicable r = is_valid_at r now && is_match rt order r

  -- the decision applies rules of the list, in the order of their priorities
  pub record Selects (rules : List EnrichmentRule) (d : EnrichmentDecision) : Type 0 where
    pub applied : List EnrichmentRule
    pub skipped : List EnrichmentRule
    pub all_rules : Permᴰ (applied ++ skipped) rules
    pub applied_hold : All IsApplicable applied
    pub skipped_fail : All (λ r. ¬ IsApplicable r) skipped
    pub ascending : IsSorted (λ r. r.priority) applied
    pub tied :
        (k : ℤ)
        → filter (has_key (λ r. r.priority) k) applied
          ≡ filter (has_key (λ r. r.priority) k) (filter is_applicable rules)
    pub ids : d.matched_rules ≡ map (λ r. r.rule_id) applied
    pub details : d.applied_rule_details ≡ map (rule_detail rt) applied

  matching-perm :
      (rules : List EnrichmentRule) → Permᴰ (matching rules) (filter is_applicable rules)
  unfolding active_rules
  matching-perm rules = rw (filter-filter (λ r. is_valid_at r now) (is_match rt order) rules) (
      filter-perm (is_match rt order)
        (sort_by-perm (λ r. r.priority) (filter (λ r. is_valid_at r now) rules)))

  matching-tied :
      (rules : List EnrichmentRule) (k : ℤ)
      → filter (has_key (λ r. r.priority) k) (matching rules)
        ≡ filter (has_key (λ r. r.priority) k) (filter is_applicable rules)
  unfolding active_rules
  matching-tied rules k =
      let same = has_key (λ (r : EnrichmentRule). r.priority) k in
      let met = is_match rt order in
      let valid = filter (λ r. is_valid_at r now) rules in
      filter_comm same met (sort_by (λ r. r.priority) valid)
      ∙ ap (filter met) (filter-sort_by (λ r. r.priority) k valid)
      ∙ filter_comm met same valid
      ∙ ap (filter same) (sym (filter-filter (λ r. is_valid_at r now) met rules))

  matching-All : (rules : List EnrichmentRule) → All IsApplicable (matching rules)
  matching-All rules =
      let active = active_rules rules now in
      All-zip (λ r. IsValidAt r (instant now)) (λ r. matches rt order r ≡ ok true) (matching rules)
        (All-filter (is_match rt order) _ active (active_rules-All rules))
        (All-map _ _ (λ r m. holds-eq-true (matches rt order r) m) (matching rules)
          (All-filter_self (is_match rt order) active))

  not-IsApplicable : (r : EnrichmentRule) → not (is_applicable r) ≡ true → ¬ IsApplicable r
  not-IsApplicable r h (valid, met) =
      let is_valid = (is_valid_at_iff r now).1 valid in
      let is_met : is_match rt order r ≡ true = ap holds met in absurd (ground arith)

  -- The rules given are, each as often as it is given, those that a decision applies and those that
  -- it skips. It applies exactly the rules that are switched on, within their time bounds at `now`,
  -- and have conditions that hold for the order. The ids and the details that it lists are those
  -- of the applied rules, which ascend in priority, and those of one priority come in the order in
  -- which they are given.
  pub evaluate-matched :
      (rules : List EnrichmentRule) {d : EnrichmentDecision}
      → evaluate rt order rules now ≡ ok d
      → Selects rules d
  evaluate-matched rules h = record {
    applied = matching rules;
    skipped = filter (λ r. not (is_applicable r)) rules;
    all_rules =
        Permᴰ.trans (Permᴰ.append_right _ (matching-perm rules))
          (filter-perm_split is_applicable rules);
    applied_hold = matching-All rules;
    skipped_fail =
        All-map _ _ not-IsApplicable _ (All-filter_self (λ r. not (is_applicable r)) rules);
    ascending =
        IsSorted-filter (λ r. r.priority) (is_match rt order) _ (active_rules-IsSorted rules);
    tied = matching-tied rules;
    ids = ap (λ (d : EnrichmentDecision). d.matched_rules) (decision-eq rules h);
    details = ap (λ (d : EnrichmentDecision). d.applied_rule_details) (decision-eq rules h);
  }

  -- When no two rules have the same priority, the outcome of an evaluation does not depend on the
  -- order in which the rules are given.
  pub evaluate-perm :
      {rules rules' : List EnrichmentRule}
      → Permᴰ rules rules'
      → AllDistinct (λ r. r.priority) rules
      → evaluate rt order rules now ≡ evaluate rt order rules' now
  unfolding evaluate active_rules
  evaluate-perm {rules} p distinct = rw (
      sort_by-perm_invariant (λ r. r.priority) (filter-perm (λ r. is_valid_at r now) p)
        (AllDistinct-filter (λ r. is_valid_at r now) (λ r. r.priority) rules distinct))

  -- Rules that are switched off or out of their time bounds change nothing.
  pub evaluate-filter_valid :
      (rules : List EnrichmentRule)
      → evaluate rt order (filter (λ r. is_valid_at r now) rules) now ≡ evaluate rt order rules now
  unfolding evaluate active_rules
  evaluate-filter_valid rules = rw (
      filter_of_All (λ r. is_valid_at r now) (filter (λ r. is_valid_at r now) rules)
        (All-filter_self (λ r. is_valid_at r now) rules))
