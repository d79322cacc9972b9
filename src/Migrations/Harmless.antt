-- ===== src/Migrations/Harmless.antt =====
-- Evaluating the rules that the migrations and `seed-rules` put in.
use rules_enrichment_daemon.Prelude.{
  ℕ, ◌%◌, String, Ordering, Bool, true, false, not, ◌≡◌, refl, List, [], ◌∷◌, filter, All,
  All-filter, ◌⊎◌, inl, inr, if◌then◌else◌,
}
use rules_enrichment_daemon.Prelude.Int.{ℤ, pos}
use rules_enrichment_daemon.Domain.Errors.{Result, ok, ◌>>=◌}
use rules_enrichment_daemon.Domain.Datetime.{Datetime}
use rules_enrichment_daemon.Domain.Json.{int, float, str, arr, obj, Items, Fields, is_none, truthy}
use rules_enrichment_daemon.Domain.Json.Dict.{get_or_null}
use rules_enrichment_daemon.Domain.Json.Compare.{json_compare}
use rules_enrichment_daemon.Domain.Order.{Number, number_json, whole, dyadic, ExternalOrder}
use rules_enrichment_daemon.Domain.Value.{Value, Runtime, json, value_compare}
use rules_enrichment_daemon.Domain.Specification.{
  is_missing, ordered, is_lt, is_gt, Op, eq, gt, gte, lte, contains, is_in, starts_with, ends_with,
  op_of, and_spec, or_spec, predicate, none_left, spec, extract, test_predicate, test_value,
  apply_op, member_of, is_satisfied_by,
}
use rules_enrichment_daemon.Domain.Specification.Factory.{from_json}
use rules_enrichment_daemon.Migrations.Bulk.{bulk_conditions, bulk_rule, countries}
use rules_enrichment_daemon.Migrations.Longtail.{
  longtail_conditions, longtail_rule, operations, one_to_five,
}
use rules_enrichment_daemon.Migrations.Longtail as Longtail
use rules_enrichment_daemon.Cli.{destination_rule, origin_rule, baseline_rules}
use rules_enrichment_daemon.Persistence.Mappers.{to_rule}
use rules_enrichment_daemon.Domain.Rule.{EnrichmentRule, is_valid_at}
use rules_enrichment_daemon.Domain.Evaluation.{
  EnrichmentDecision, Progress, no_progress, record_match, matches, apply_rules, active_rules,
  decision_of, evaluate,
}
use rules_enrichment_daemon.Prelude.Sort.{All-sort_by}
use native.Mathlib.Nat.{mod-lt, zero-lt-suc}
use rules_enrichment_daemon.Migrations.{item_at}
use rules_enrichment_daemon.Migrations.Numbering.{item_at-All}

-- a test that gives an answer
abbrev pub Answers : Result Bool → Type 0
Answers r = (b : Bool) × (r ≡ ok b)

Answers-and :
    {first later : Result Bool}
    → Answers first
    → Answers later
    → Answers (first >>= λ holds. if holds then later else ok false)
Answers-and (a, e) (b, e') = rw (e, e') (if a then b else false, by_cases a)
  where
    by_cases : (a : Bool) → (if a then ok b else ok false) ≡ ok (if a then b else false)
    by_cases true = refl
    by_cases false = refl

Answers-or :
    {first later : Result Bool}
    → Answers first
    → Answers later
    → Answers (first >>= λ holds. if holds then ok true else later)
Answers-or (a, e) (b, e') = rw (e, e') (if a then true else b, by_cases a)
  where
    by_cases : (a : Bool) → (if a then ok true else ok b) ≡ ok (if a then true else b)
    by_cases true = refl
    by_cases false = refl

-- the conditions are read, and hold or do not hold for any order
abbrev pub AreHarmless : Fields → Type 0
AreHarmless conditions =
    (rt : Runtime) (o : ExternalOrder)
    → Answers (from_json rt (obj conditions) >>= λ s. is_satisfied_by rt o s)

-- the value of a path that ends in a number
abbrev found : Number → Value
found x = if is_none (number_json x) then json (number_json x) else json (number_json x)

number-Answers :
    (test : Ordering → Bool) (x : Number) (m : ℤ) (k : ℕ)
    → Answers (
        if is_missing (found x)
        then ok false
        else ordered test (value_compare (found x) (float m k)))
unfolding value_compare json_compare
number-Answers test (whole n) m k = (_, refl)
number-Answers test (dyadic n j) m k = (_, refl)

module _ (rt : Runtime) (o : ExternalOrder) where
  country-Answers :
      (c : String)
      → Answers (test_predicate rt o (str "destination_address.country_code") eq (str c))
  unfolding test_predicate test_value extract apply_op
  country-Answers c = (_, refl)

  street-Answers :
      (op : Op) (t : String)
      → (op ≡ contains) ⊎ (op ≡ starts_with) ⊎ (op ≡ ends_with)
      → Answers (test_predicate rt o (str "source_address.address_line_1") op (str t))
  unfolding test_predicate test_value extract apply_op
  street-Answers contains t h = (_, refl)
  street-Answers starts_with t h = (_, refl)
  street-Answers ends_with t h = (_, refl)
  street-Answers _ t (inl h) = cc
  street-Answers _ t (inr (inl h)) = cc
  street-Answers _ t (inr (inr h)) = cc

  priority-Answers : (n : ℤ) → Answers (test_predicate rt o (str "priority") lte (int n))
  unfolding test_predicate test_value extract apply_op value_compare
  priority-Answers n = (_, refl)

  priority_in-Answers : (xs : Items) → Answers (test_predicate rt o (str "priority") is_in (arr xs))
  unfolding test_predicate test_value extract apply_op member_of
  priority_in-Answers xs = (_, refl)

  weight-Answers :
      (m : ℤ) (k : ℕ) → Answers (test_predicate rt o (str "total_weight_kg") gte (float m k))
  unfolding test_predicate test_value extract apply_op
  weight-Answers m k = number-Answers (λ c. not (is_lt c)) o.total_weight_kg m k

  volume-Answers :
      (m : ℤ) (k : ℕ) → Answers (test_predicate rt o (str "total_volume_m3") gt (float m k))
  unfolding test_predicate test_value extract apply_op
  volume-Answers m k = number-Answers is_gt o.total_volume_m3 m k

bulk-AreHarmless : (i : ℕ) → AreHarmless (bulk_conditions i)
unfolding bulk_conditions is_satisfied_by from_json test_predicate truthy test_value get_or_null
    extract op_of apply_op
bulk-AreHarmless i rt o = Answers-and (country-Answers rt o (item_at countries (i % 6))) (
    Answers-and (weight-Answers rt o _ _) (
      Answers-and (street-Answers rt o contains "Via" (inl refl))
        (Answers-and (priority-Answers rt o (pos 5)) (_, refl))))

longtail-AreHarmless :
    (country : String) (volume : ℤ × ℕ)
    → All (λ text_op. AreHarmless (longtail_conditions country text_op volume)) operations
unfolding longtail_conditions is_satisfied_by from_json test_predicate truthy test_value get_or_null
    extract op_of apply_op
longtail-AreHarmless country volume = (
  λ rt o. by_op rt o contains _ (inl refl),
  (
    λ rt o. by_op rt o starts_with _ (inr (inl refl)),
    (λ rt o. by_op rt o ends_with _ (inr (inr refl)), tt),
  ),
)
  where
    by_op :
        (rt : Runtime) (o : ExternalOrder) (op : Op) (t : String)
        → (op ≡ contains) ⊎ (op ≡ starts_with) ⊎ (op ≡ ends_with)
        → Answers (
            is_satisfied_by rt o (
              or_spec (
                spec
                  (and_spec (
                    spec (predicate (str "destination_address.country_code") eq (str country)) (
                      spec (predicate (str "source_address.address_line_1") op (str t)) none_left)))
                  (spec
                    (and_spec (
                      spec
                        (predicate (str "total_volume_m3") gt (float volume.0 volume.1))
                        (spec (predicate (str "priority") is_in (arr one_to_five)) none_left)))
                    none_left))))
    by_op rt o op t h =
        Answers-or
          (Answers-and (country-Answers rt o country)
            (Answers-and (street-Answers rt o op t h) (_, refl)))
          (Answers-or
            (Answers-and (volume-Answers rt o volume.0 volume.1)
              (Answers-and (priority_in-Answers rt o one_to_five) (_, refl)))
            (_, refl))

baseline-AreHarmless :
    (now : Datetime) → All (λ r. AreHarmless r.conditions_json) (baseline_rules now)
unfolding is_satisfied_by from_json test_predicate truthy test_value get_or_null extract op_of
    apply_op
baseline-AreHarmless now = (
  λ rt o. Answers-and (country-Answers rt o "ES") (_, refl),
  (λ rt o. Answers-and (street-Answers rt o contains "Via Roma" (inl refl)) (_, refl), tt),
)

-- the rules that a migration or `seed-rules` puts in, as the daemon reads them
pub data IsSeeded : EnrichmentRule → Type 0 where
  of_bulk : (now : Datetime) (i : ℕ) → IsSeeded (to_rule (bulk_rule now i))
  of_longtail :
      (rounded : ℕ → ℤ × ℕ) (now : Datetime) (i : ℕ)
      → IsSeeded (to_rule (longtail_rule rounded now i))
  of_destination : (now : Datetime) → IsSeeded (destination_rule now)
  of_origin : (now : Datetime) → IsSeeded (origin_rule now)

IsSeeded-AreHarmless : (r : EnrichmentRule) → IsSeeded r → AreHarmless r.conditions_json
unfolding to_rule bulk_rule longtail_rule
IsSeeded-AreHarmless _ (of_bulk now i) = bulk-AreHarmless i
IsSeeded-AreHarmless _ (of_longtail rounded now i) =
    item_at-All
      (λ op.
        AreHarmless
          (longtail_conditions (item_at Longtail.countries (i % 8)) op (rounded (i % 20))))
      operations (i % 3) (mod-lt i (zero-lt-suc 2))
      (longtail-AreHarmless (item_at Longtail.countries (i % 8)) (rounded (i % 20)))
IsSeeded-AreHarmless _ (of_destination now) = (baseline-AreHarmless now).0
IsSeeded-AreHarmless _ (of_origin now) = (baseline-AreHarmless now).1.0

module _ (rt : Runtime) (order : ExternalOrder) where
  apply_rules_returns :
      (rules : List EnrichmentRule) (p : Progress)
      → All IsSeeded rules
      → (p' : Progress) × (apply_rules rt order rules p ≡ ok p')
  unfolding apply_rules matches
  apply_rules_returns [] p seeded = (p, refl)
  apply_rules_returns (rule ∷ rules) p seeded =
      let (b, answer) = IsSeeded-AreHarmless rule seeded.0 rt order in
      rw answer (apply_rules_returns rules (if b then record_match rt rule p else p) seeded.1)

  -- With rules that the migrations and `seed-rules` put in, the evaluation of any order returns a
  -- decision, whatever the time and whatever Python's text operations give.
  pub evaluate-IsSeeded :
      (rules : List EnrichmentRule) (now : Datetime)
      → All IsSeeded rules
      → (d : EnrichmentDecision) × (evaluate rt order rules now ≡ ok d)
  unfolding evaluate active_rules
  evaluate-IsSeeded rules now seeded =
      let (p, returns) = apply_rules_returns (active_rules rules now) no_progress (
        All-sort_by (λ r. r.priority) IsSeeded (filter (λ r. is_valid_at r now) rules)
          (All-filter (λ r. is_valid_at r now) IsSeeded rules seeded)) in
      (decision_of rt order now p, rw returns refl)
