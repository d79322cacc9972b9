-- ===== src/Tests/Edges.antt =====
-- The client's reading, the bootstrapped client, and the migrations.
use Prim.Native.String.{count}
use rules_enrichment_daemon.Prelude.{
  ℕ, ◌≤◌, String, ◌≡◌, refl, ◌↔◌, true, false, none, some, List, [], ◌∷◌, map, All, arith,
}
use rules_enrichment_daemon.Prelude.Int.{ℤ, pos}
use rules_enrichment_daemon.Prelude.Text.{starts_with}
use rules_enrichment_daemon.Domain.Errors.{Result, ok}
use rules_enrichment_daemon.Domain.Datetime.{Datetime}
use rules_enrichment_daemon.Domain.Json.{arr, end}
use rules_enrichment_daemon.Domain.Order.{ExternalOrder, is_member}
use rules_enrichment_daemon.Domain.Evaluation.{EnrichmentDecision, evaluate}
use rules_enrichment_daemon.Domain.Rule.{EnrichmentRule}
use rules_enrichment_daemon.Persistence.Models.{EnrichmentRuleModel}
use rules_enrichment_daemon.Persistence.Mappers.{outbox_row, rule_row, to_rule}
use rules_enrichment_daemon.Persistence.Session.{has_duplicate}
use rules_enrichment_daemon.Application.Recording.{ProcessingResult, event_of}
use rules_enrichment_daemon.Http.Retry.{
  Response, answered, RetryPolicy, Trail, judged, retry_loop, run,
}
use rules_enrichment_daemon.Http.Retry.Waits.{total}
use rules_enrichment_daemon.Http.Client.{
  ClientSettings, Network, request, translated, raise_for_status,
}
use rules_enrichment_daemon.Http.Client.Reading.{query_of, get_orders_for_enrichment}
use rules_enrichment_daemon.Http.Client.Parts.{done}
use rules_enrichment_daemon.Http.Client.Reading.RoundTrip.{
  wires, zoned, get_orders_for_enrichment-wires,
}
use rules_enrichment_daemon.Http.Client.Reading.Aware.{
  HasAwareDates, get_orders_for_enrichment-HasAwareDates,
}
use rules_enrichment_daemon.Bootstrap.{external_wms}
use rules_enrichment_daemon.Bootstrap.Config.{default_settings}
use rules_enrichment_daemon.Bootstrap.Bounds.{external_wms-request}
use rules_enrichment_daemon.Cli.{destination_rule, origin_rule}
use rules_enrichment_daemon.Migrations.Bulk.{bulk_rule, upgrade_bulk, downgrade_bulk}
use rules_enrichment_daemon.Migrations.Longtail.{
  longtail_rule, upgrade_longtail, downgrade_longtail,
}
use rules_enrichment_daemon.Migrations.Harmless.{
  of_bulk, of_longtail, of_destination, of_origin, evaluate-IsSeeded,
}
use rules_enrichment_daemon.Migrations.RoundTrip.{downgrade-upgrade}
use rules_enrichment_daemon.Migrations.Schema.Widths.{FitsOutbox, event_of-fits_iff}
use rules_enrichment_daemon.Tests.Samples.{utc, runtime, sample_order, spain}

-- every text is the second of January, 200 microseconds in; the order has both its dates there
abbrev read_date : String → Result Datetime
read_date s = ok (utc 200)

abbrev dated_order : ExternalOrder
dated_order = record sample_order { created_at = utc 200 }

abbrev print_date : Datetime → String
print_date t = "2026-01-02T00:00:00Z"

abbrev policy : RetryPolicy
policy = record { max_attempts = 3; base_delay = 250; max_delay = 2000 }

abbrev client : ClientSettings
client = record { base_url = "http://wms"; api_key = ""; retry = policy }

abbrev orders_answer : Response
orders_answer = record { status_code = 200; body = arr (wires print_date (dated_order ∷ [])) }

abbrev network : Network
network = record {
  reply = λ n r. answered orders_answer;
  jitter = λ n. 100;
  status_text = λ r. "status";
}

abbrev no_trail : Trail
no_trail = record { calls = 0; sleeps = [] }

orders_answered :
    (request client network "GET" "/api/v1/orders"
      (some (query_of print_date none 25))
      end
      none
      no_trail).0
    ≡ ok orders_answer
unfolding request translated raise_for_status run retry_loop judged
orders_answered = refl

get_orders_for_enrichment-wires_example :
    (get_orders_for_enrichment read_date print_date client network none 25 no_trail).0
    ≡ done (map zoned (dated_order ∷ []))
get_orders_for_enrichment-wires_example =
    get_orders_for_enrichment-wires read_date print_date print_date client network none 25 no_trail
      orders_answer (dated_order ∷ []) orders_answered refl ((refl, refl), tt)

get_orders_for_enrichment-HasAwareDates_example : All HasAwareDates (map zoned (dated_order ∷ []))
get_orders_for_enrichment-HasAwareDates_example =
    get_orders_for_enrichment-HasAwareDates read_date print_date client network none 25 no_trail
      (map zoned (dated_order ∷ [])) get_orders_for_enrichment-wires_example

jitter_small : (n : ℕ) → network.jitter n ≤ 250
jitter_small n = omega arith

external_wms-request_example :
    (1
      ≤ (request
          (external_wms default_settings)
          network
          "GET"
          "/health"
          none
          end
          none
          no_trail).1.calls)
    × ((request
          (external_wms default_settings)
          network
          "GET"
          "/health"
          none
          end
          none
          no_trail).1.calls
        ≤ 3)
    × (total
          (request
            (external_wms default_settings)
            network
            "GET"
            "/health"
            none
            end
            none
            no_trail).1.sleeps
        ≤ 1250)
external_wms-request_example =
    external_wms-request default_settings network "GET" "/health" none end none no_trail
      jitter_small

-- 0.05 is not a dyadic fraction; any other float serves
abbrev twentieths : ℕ → ℤ × ℕ
twentieths n = (pos n, 4)

abbrev seeded_rules : List EnrichmentRule
seeded_rules =
    to_rule (bulk_rule (utc 100) 7)
    ∷ to_rule (longtail_rule twentieths (utc 100) 9)
    ∷ destination_rule (utc 100)
    ∷ origin_rule (utc 100)
    ∷ []

evaluate-IsSeeded_example :
    (d : EnrichmentDecision) × (evaluate runtime sample_order seeded_rules (utc 500) ≡ ok d)
evaluate-IsSeeded_example = evaluate-IsSeeded runtime sample_order seeded_rules (utc 500) (
  of_bulk (utc 100) 7,
  (of_longtail twentieths (utc 100) 9, (of_destination (utc 100), (of_origin (utc 100), tt))),
)

abbrev rule_table : List EnrichmentRuleModel
rule_table = rule_row spain ∷ []

distinct_rules : has_duplicate (map (λ r. r.rule_id) rule_table) ≡ false
unfolding has_duplicate rule_row is_member
distinct_rules = refl

not_seeded :
    (starts_with (rule_row spain).rule_id "BULK-RULE-" ≡ false)
    × (starts_with (rule_row spain).rule_id "LTAIL-RULE-" ≡ false)
unfolding starts_with rule_row
not_seeded = (refl, refl)

downgrade-upgrade_example :
    (bulk all : List EnrichmentRuleModel) × (upgrade_bulk (utc 500) rule_table ≡ ok bulk)
    × (upgrade_longtail twentieths (utc 600) bulk ≡ ok all)
    × (downgrade_longtail all ≡ bulk)
    × (downgrade_bulk bulk ≡ rule_table)
downgrade-upgrade_example =
    downgrade-upgrade twentieths (utc 500) (utc 600) rule_table distinct_rules (not_seeded.0, tt)
      (not_seeded.1, tt)

abbrev sample_result : ProcessingResult
sample_result = record {
  order_id = "ORD-1";
  correlation_id = "123e4567-e89b-12d3-a456-426614174000";
  attempt_number = 1;
  success = true;
  now = utc 500;
  enrichment_hash = "digest";
  event_payload = end;
}

event_of-fits_iff_example : FitsOutbox (outbox_row (event_of sample_result)) ↔ (count "ORD-1" ≤ 76)
event_of-fits_iff_example = event_of-fits_iff sample_result refl
