-- ===== src/Migrations/Longtail.antt =====
-- migrations/versions/0003_seed_longtail_rules.py
use Prim.Native.String.{◌++◌}
use rules_enrichment_daemon.Prelude.{
  ℕ, ◌+◌, ◌-◌, ◌%◌, String, true, ◌==◌, str_eq, none, some, List, [], ◌∷◌, if◌then◌else◌,
}
use rules_enrichment_daemon.Prelude.Int.{ℤ, pos}
use rules_enrichment_daemon.Domain.Datetime.{Datetime}
use rules_enrichment_daemon.Domain.Errors.{Result}
use rules_enrichment_daemon.Domain.Json.{
  Json, int, float, str, arr, obj, Items, nil, cons, Fields, end, field,
}
use rules_enrichment_daemon.Persistence.Models.{EnrichmentRuleModel}
use rules_enrichment_daemon.Migrations.{
  padded, item_at, days_before, days_after, test, client_code_of, facility_code_of, rows_from,
  bulk_insert, delete_like,
}

abbrev pub rule_count : ℕ
rule_count = 2800

abbrev pub countries : List String
countries = "ES" ∷ "FR" ∷ "DE" ∷ "IT" ∷ "PT" ∷ "NL" ∷ "BE" ∷ "AT" ∷ []

abbrev pub operations : List String
operations = "contains" ∷ "starts_with" ∷ "ends_with" ∷ []

-- `"Via" if text_op != "ends_with" else "10"`
abbrev pub text_value : String → String
text_value text_op = if str_eq text_op "ends_with" then "10" else "Via"

abbrev pub one_to_five : Items
one_to_five =
    cons (int (pos 1))
      (cons (int (pos 2)) (cons (int (pos 3)) (cons (int (pos 4)) (cons (int (pos 5)) nil))))

-- `{"and": [first, second]}`
abbrev pub both : Json → Json → Json
both first second = obj (field "and" (arr (cons first (cons second nil))) end)

-- `conditions_json` with a country, an operator and a volume
unfoldable pub longtail_conditions : String → String → ℤ × ℕ → Fields
longtail_conditions country text_op volume =
    field "or"
      (arr (
        cons
          (both (test "destination_address.country_code" "eq" (str country))
            (test "source_address.address_line_1" text_op (str (text_value text_op))))
          (cons
            (both (test "total_volume_m3" "gt" (float volume.0 volume.1))
              (test "priority" "in" (arr one_to_five)))
            nil)))
      end

-- `enrichment_json`
unfoldable pub longtail_enrichment : String → ℕ → Fields
unfolding padded
longtail_enrichment country i =
    field "destination_lane" (str ("LN-" ++ country ++ "-" ++ padded 1 (i % 9 + 1))) (
      field "source_handling_code" (str ("LTAIL-" ++ padded 2 (i % 40 + 1))) (
        field "treatment_code" (str (if i % 4 == 0 then "BULK" else "STANDARD"))
          (field "allocation_zone" (str ("LT-" ++ padded 2 (i % 30 + 1))) end)))

-- the i-th row; `rounded n` is the float of `round(n * 0.05, 3)`
unfoldable pub longtail_rule : (ℕ → ℤ × ℕ) → Datetime → ℕ → EnrichmentRuleModel
unfolding longtail_conditions longtail_enrichment padded
longtail_rule rounded now i =
    let client_idx = (i - 1) % 60 + 1 in
    let facility_idx = (i - 1) % 3 + 1 in
    let country = item_at countries (i % 8) in
    record {
      rule_id = "LTAIL-RULE-" ++ padded 5 i;
      facility_code = if i % 6 == 0 then some (facility_code_of client_idx facility_idx) else none;
      client_code = some (client_code_of client_idx);
      zone_code = none;
      rule_type = "origin_address";
      priority = pos (300 + i % 400);
      is_active = true;
      conditions_json = longtail_conditions country (item_at operations (i % 3)) (rounded (i % 20));
      enrichment_json = longtail_enrichment country i;
      valid_from = some (days_before now (i % 45));
      valid_to = if i % 8 == 0 then some (days_after now 365) else none;
    }

-- `upgrade`
unfoldable pub upgrade_longtail :
    (ℕ → ℤ × ℕ) → Datetime → List EnrichmentRuleModel → Result (List EnrichmentRuleModel)
unfolding bulk_insert
upgrade_longtail rounded now = bulk_insert (rows_from (longtail_rule rounded now) 1 rule_count)

-- `downgrade`
unfoldable pub downgrade_longtail : List EnrichmentRuleModel → List EnrichmentRuleModel
unfolding delete_like
downgrade_longtail = delete_like "LTAIL-RULE-"
