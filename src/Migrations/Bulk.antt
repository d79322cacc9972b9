-- ===== src/Migrations/Bulk.antt =====
-- migrations/versions/0002_seed_bulk_rules.py
use Prim.Native.String.{◌++◌}
use rules_enrichment_daemon.Prelude.{
  ℕ, ◌+◌, ◌-◌, ◌%◌, String, true, ◌==◌, none, some, List, [], ◌∷◌, if◌then◌else◌,
}
use rules_enrichment_daemon.Prelude.Int.{pos}
use rules_enrichment_daemon.Domain.Datetime.{Datetime}
use rules_enrichment_daemon.Domain.Errors.{Result}
use rules_enrichment_daemon.Domain.Json.{
  bool, int, float, str, arr, obj, nil, cons, Fields, end, field,
}
use rules_enrichment_daemon.Persistence.Models.{EnrichmentRuleModel}
use rules_enrichment_daemon.Migrations.{
  padded, item_at, days_before, days_after, test, client_code_of, facility_code_of, rows_from,
  bulk_insert, delete_like,
}

abbrev pub rule_count : ℕ
rule_count = 3200

abbrev pub countries : List String
countries = "ES" ∷ "FR" ∷ "DE" ∷ "IT" ∷ "PT" ∷ "NL" ∷ []

abbrev pub temp_classes : List String
temp_classes = "AMBIENT" ∷ "CHILLED" ∷ "FROZEN" ∷ []

-- `conditions_json` of the i-th rule
unfoldable pub bulk_conditions : ℕ → Fields
bulk_conditions i =
    field "and"
      (arr (
        cons (test "destination_address.country_code" "eq" (str (item_at countries (i % 6)))) (
          cons (test "total_weight_kg" "gte" (float (pos (i % 30 + 1)) 0)) (
            cons (test "source_address.address_line_1" "contains" (str "Via"))
              (cons (test "priority" "lte" (int (pos 5))) nil)))))
      end

-- `enrichment_json`
unfoldable pub bulk_enrichment : ℕ → Fields
unfolding padded
bulk_enrichment i =
    field "destination_lane" (str (item_at countries (i % 6) ++ "0" ++ padded 1 (i % 7 + 1))) (
      field "source_handling_code" (str ("SRC-" ++ padded 2 (i % 12 + 1))) (
        field "treatment_code" (str (if i % 3 == 0 then "PRIORITY" else "STANDARD")) (
          field "allocation_zone" (str ("Z" ++ padded 2 (i % 18 + 1))) (
            field "shipping_constraints"
              (obj (
                field "fragile" (bool (i % 5 == 0))
                  (field "temperature_class" (str (item_at temp_classes (i % 3))) end)))
              end))))

-- the i-th row
unfoldable pub bulk_rule : Datetime → ℕ → EnrichmentRuleModel
unfolding bulk_conditions bulk_enrichment padded
bulk_rule now i =
    let client_idx = (i - 1) % 60 + 1 in
    let facility_idx = (i - 1) % 3 + 1 in
    record {
      rule_id = "BULK-RULE-" ++ padded 5 i;
      facility_code = some (facility_code_of client_idx facility_idx);
      client_code = some (client_code_of client_idx);
      zone_code =
          if i % 4 == 0
          then some ("SIMZ-" ++ facility_code_of client_idx facility_idx ++ "-01")
          else none;
      rule_type = if i % 2 == 0 then "composite" else "destination";
      priority = pos (i % 250 + 1);
      is_active = true;
      conditions_json = bulk_conditions i;
      enrichment_json = bulk_enrichment i;
      valid_from = some (days_before now (i % 10));
      valid_to = if i % 9 == 0 then some (days_after now 180) else none;
    }

-- `upgrade`
unfoldable pub upgrade_bulk :
    Datetime → List EnrichmentRuleModel → Result (List EnrichmentRuleModel)
unfolding bulk_insert
upgrade_bulk now = bulk_insert (rows_from (bulk_rule now) 1 rule_count)

-- `downgrade`
unfoldable pub downgrade_bulk : List EnrichmentRuleModel → List EnrichmentRuleModel
unfolding delete_like
downgrade_bulk = delete_like "BULK-RULE-"
