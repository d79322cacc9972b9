-- ===== src/Cli.antt =====
-- interfaces/cli/main.py: the commands. `run-daemon` is the loop of Workers; what is echoed is left
-- out but for its numbers.
pub mod Seeding
pub mod Commands
use rules_enrichment_daemon.Prelude.{
  ℕ, String, Bool, true, false, not, ◌&&◌, Option, none, some, List, [], ◌∷◌, ltb, length,
  if◌then◌else◌,
}
use rules_enrichment_daemon.Prelude.Int.{pos}
use rules_enrichment_daemon.Domain.Datetime.{Datetime}
use rules_enrichment_daemon.Domain.Json.{bool, str, arr, obj, Items, nil, cons, Fields, end, field}
use rules_enrichment_daemon.Domain.Rule.{EnrichmentRule}
use rules_enrichment_daemon.Exec.{Exec, pure, ◌>>=◌, ◌>>◌}
use rules_enrichment_daemon.Persistence.Session.{Session, commit}
use rules_enrichment_daemon.Persistence.Repositories.{list_active_rules, upsert_many}
use rules_enrichment_daemon.Application.Environment.{Env, Action, read_clock, in_uow}
use rules_enrichment_daemon.Http.Retry.{Trail}
use rules_enrichment_daemon.Http.Client.{ClientSettings, Network}
use rules_enrichment_daemon.Http.Client as Client

-- `{"and": [{"field": path, "op": op, "value": value}]}`
abbrev pub only_if : String → String → String → Fields
only_if path op value =
    field "and"
      (arr (
        cons (obj (field "field" (str path) (field "op" (str op) (field "value" (str value) end))))
          nil))
      end

abbrev pub destination_rule : Datetime → EnrichmentRule
destination_rule now = record {
  rule_id = "RULE-DEST-ES-001";
  facility_code = none;
  client_code = none;
  zone_code = none;
  rule_type = "destination";
  priority = pos 10;
  is_active = true;
  conditions_json = only_if "destination_address.country_code" "eq" "ES";
  enrichment_json =
      field "destination_lane" (str "ES01") (field "treatment_code" (str "STANDARD") end);
  valid_from = some now;
  valid_to = none;
}

abbrev pub origin_rule : Datetime → EnrichmentRule
origin_rule now = record {
  rule_id = "RULE-ORIGIN-ROMA-002";
  facility_code = some "FC-MIL-01";
  client_code = some "DHL";
  zone_code = none;
  rule_type = "origin_address";
  priority = pos 20;
  is_active = true;
  conditions_json = only_if "source_address.address_line_1" "contains" "Via Roma";
  enrichment_json =
      field "source_handling_code" (str "SPECIAL_ORIGIN") (field "allocation_zone" (str "A1") end);
  valid_from = some now;
  valid_to = none;
}

abbrev pub baseline_rules : Datetime → List EnrichmentRule
baseline_rules now = destination_rule now ∷ origin_rule now ∷ []

-- the number of rules that are active now, whatever their scope
unfoldable pub count_active : Env → Action ℕ
count_active env = do
  now ← read_clock env
  rules ← in_uow (list_active_rules now none none none)
  pure (length rules)

-- `validate_rules`
unfoldable pub validate_rules : Env → Action ℕ
validate_rules env = count_active env

-- what `seed_rules` reports
pub data SeedReport : Type 0 where
  skipped : ℕ → SeedReport
  seeded : SeedReport

-- the second `with` block
unfoldable pub insert_baseline : Env → Datetime → Action (Unit {0})
insert_baseline env now = in_uow (do upsert_many (baseline_rules now); commit env.database)

-- from `now = ...` on
unfoldable pub insert_and_report : Env → Action SeedReport
insert_and_report env = do now ← read_clock env; insert_baseline env now; pure seeded

-- `seed_rules`
unfoldable pub seed_rules : Env → Bool → Action SeedReport
seed_rules env force = do
  existing ← count_active env
  if ltb 0 existing && not force then pure (skipped existing) else insert_and_report env

-- `health_check`: db_ok and api_ok
unfoldable pub health_report : ClientSettings → Network → Trail → (Bool × Bool) × Trail
health_report settings net t = let r = Client.health_check settings net t in ((true, r.0), r.1)

-- `health` of interfaces/health/api.py
unfoldable pub health_answer : ClientSettings → Network → Trail → Fields × Trail
health_answer settings net t =
    let r = Client.health_check settings net t in
    (
      field "db_ok" (bool true) (
          field "external_api_ok" (bool r.0)
            (field "rules_repo_ok" (bool true) (field "outbox_ok" (bool true) end))),
      r.1,
    )
