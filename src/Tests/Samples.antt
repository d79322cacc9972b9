-- ===== src/Tests/Samples.antt =====
-- Sample data: the rule and the order of tests/unit/test_rule_engine.py, and a world around them.
use rules_enrichment_daemon.Prelude.{ℕ, String, true, false, none, some, List, [], ◌∷◌}
use rules_enrichment_daemon.Prelude.Int.{pos}
use rules_enrichment_daemon.Domain.Errors.{ok}
use rules_enrichment_daemon.Domain.Datetime.{Datetime}
use rules_enrichment_daemon.Domain.Json.{null, str, Fields, end, field}
use rules_enrichment_daemon.Domain.Order.{Address, ExternalOrder, whole, ExternalOrderLine}
use rules_enrichment_daemon.Domain.Value.{json, Runtime}
use rules_enrichment_daemon.Domain.Rule.{EnrichmentRule}
use rules_enrichment_daemon.Persistence.Models.{Tables, no_rows}
use rules_enrichment_daemon.Application.Environment.{Env, World}
use rules_enrichment_daemon.Application.ProcessOrder.{ProcessSettings}

abbrev pub runtime : Runtime
runtime = record {
  str_of = λ v. "1";
  lower = λ s. s;
  search_regex = λ pattern text. some true;
  attribute = λ v name. json null;
  isoformat = λ t. "2026-01-01T00:00:00+00:00";
  digest = λ v. "digest";
  message = λ e. "error";
}

abbrev pub utc : ℕ → Datetime
utc n = record { wall = pos n; offset = some (pos 0) }

abbrev pub madrid : Address
madrid = record {
  name = "Client";
  address_line_1 = "Street 1";
  city = "Madrid";
  postal_code = "28001";
  country_code = "ES";
}

abbrev pub line : ExternalOrderLine
line = record {
  line_number = pos 1;
  sku = "SKU-1";
  description = "Item";
  quantity = pos 2;
  uom = "EA";
  unit_weight_kg = whole (pos 5);
  unit_volume_m3 = whole (pos 1);
  hazmat_flag = false;
  temperature_class = "AMBIENT";
}

abbrev pub sample_order : ExternalOrder
sample_order = record {
  order_id = "ORD-1";
  client_code = "CLIENT_A";
  facility_code = "DC01";
  zone_code = none;
  order_type = "STANDARD";
  priority = pos 5;
  status = "READY_FOR_ENRICHMENT";
  source_address = madrid;
  destination_address = madrid;
  total_weight_kg = whole (pos 10);
  total_volume_m3 = whole (pos 2);
  lines = line ∷ [];
  created_at = utc 100;
  updated_at = utc 200;
}

abbrev pub condition : String → String → String → Fields
condition path op value =
    field "field" (str path) (field "op" (str op) (field "value" (str value) end))

abbrev pub rule_of : String → ℕ → Fields → Fields → EnrichmentRule
rule_of id priority conditions enrichment = record {
  rule_id = id;
  facility_code = none;
  client_code = none;
  zone_code = none;
  rule_type = "DESTINATION";
  priority = pos priority;
  is_active = true;
  conditions_json = conditions;
  enrichment_json = enrichment;
  valid_from = some (utc 10);
  valid_to = none;
}

abbrev pub spain : EnrichmentRule
spain =
    rule_of "RULE-DEST-ES-001" 1 (condition "destination_address.country_code" "eq" "ES")
      (field "routing_group" (str "IBERIA") end)

abbrev pub standard : EnrichmentRule
standard =
    rule_of "RULE-TYPE-001" 2 (condition "order_type" "eq" "STANDARD")
      (field "routing_group" (str "ROAD") end)

abbrev pub broken : EnrichmentRule
broken = rule_of "RULE-BROKEN" 3 (condition "order_type" "like" "STANDARD") end

abbrev pub sample_rules : List EnrichmentRule
sample_rules = standard ∷ spain ∷ []

abbrev pub sample_env : Env
sample_env = record {
  runtime = runtime;
  database = λ before after. none;
  clock = λ n. utc 500;
  ids = λ n. "run-1";
  submit = λ n id payload c. ok tt;
  fetch = λ n since limit. ok (sample_order ∷ []);
  sink = λ n event payload. ok tt;
}

abbrev pub sample_settings : ProcessSettings
sample_settings = record {
  source_system = "rules-enrichment-daemon";
  enrichment_version = 1;
  max_processing_attempts = 3;
}

abbrev pub world_of : Tables → World
world_of t = record {
  tables = t;
  clock_readings = 0;
  ids_given = 0;
  fetches = 0;
  calls = 0;
  submissions = [];
  deliveries = [];
}

abbrev pub sample_world : World
sample_world = world_of no_rows
