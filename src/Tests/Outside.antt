-- ===== src/Tests/Outside.antt =====
-- The outbox, the rules cache, a polling cycle and the client.
use rules_enrichment_daemon.Prelude.{
  ℕ, zero, suc, ◌+◌, String, ◌≡◌, refl, true, false, none, some, List, [], ◌∷◌, ◌++◌, map, filter,
  All,
}
use rules_enrichment_daemon.Prelude.Int.{◌≤ℤ◌, ◌-ℤ◌}
use rules_enrichment_daemon.Prelude.Sort.{sort_by}
use rules_enrichment_daemon.Domain.Errors.{ok, err, operational_error}
use rules_enrichment_daemon.Domain.Datetime.{Datetime, instant}
use rules_enrichment_daemon.Domain.Json.{null, str, end, field, fields_serializable}
use rules_enrichment_daemon.Domain.Order.{is_member}
use rules_enrichment_daemon.Domain.Processing.{OutboxStatus, OutboxMessage}
use rules_enrichment_daemon.Persistence.Models.{no_rows}
use rules_enrichment_daemon.Persistence.Mappers.{outbox_row, to_outbox, outbox_status}
use rules_enrichment_daemon.Persistence.Session.{
  has_duplicate, commit, all_serializable, violates_keys,
}
use rules_enrichment_daemon.Persistence.Repositories.{
  is_pending, to_outboxes, pending_rows, list_pending, change_row, mark_published,
}
use rules_enrichment_daemon.Application.Environment.{Env, World}
use rules_enrichment_daemon.Application.PublishOutbox.{
  delivery_of, send, publish_all, publish_outbox,
}
use rules_enrichment_daemon.Application.PublishOutbox.Delivered.{
  left_pending, publish_outbox-deliveries, publish_outbox-pending,
}
use rules_enrichment_daemon.Application.RulesCache.{Scope, Entry, Daemon, is_fresh, refresh_rules}
use rules_enrichment_daemon.Application.RulesCache.Fresh.{
  rules_at, IsCurrent, refresh_rules-IsCurrent,
}
use rules_enrichment_daemon.Application.Facade.{FacadeSettings, CycleReport, first_cursor, run_once}
use rules_enrichment_daemon.Application.Facade.Cycle.{IsOneOf, run_once-returns}
use rules_enrichment_daemon.Http.Retry.{
  timeout, Reply, answered, raised, RetryPolicy, Trail, judged, retry_loop, run,
}
use rules_enrichment_daemon.Http.Retry.Attempts.{Decided, run-Decided}
use rules_enrichment_daemon.Http.Client.{
  ClientSettings, Network, request, translated, raise_for_status,
}
use rules_enrichment_daemon.Prelude.{◌&&◌}
use rules_enrichment_daemon.Application.Facade.Rules.{IsTrue, run_once-IsTrue}
use rules_enrichment_daemon.Domain.Rule.{is_valid_at}
use rules_enrichment_daemon.Persistence.Mappers.{to_rule, rule_row}
use rules_enrichment_daemon.Persistence.Repositories.{is_listed, in_scope}
use rules_enrichment_daemon.Persistence.Repositories.Listed.{is_listed-eq}
use rules_enrichment_daemon.Tests.Samples.{
  spain, utc, sample_order, sample_env, sample_settings, sample_world, world_of,
}

abbrev message : String → ℕ → OutboxMessage
message id at = record {
  message_id = id;
  aggregate_type = "Order";
  aggregate_id = "ORD-1";
  event_type = "OrderEnrichmentSucceeded";
  payload_json = field "event" (str "OrderEnrichmentSucceeded") end;
  status = OutboxStatus.pending;
  created_at = utc at;
  published_at = none;
}

-- two messages, of which a batch of one takes the older
abbrev outbox_world : World
outbox_world = world_of (record no_rows {
  outbox_messages = outbox_row (message "m-2" 20) ∷ outbox_row (message "m-1" 10) ∷ [];
})

-- a database that refuses every commit
abbrev refusing_env : Env
refusing_env = record sample_env { database = λ before after. some (operational_error "locked") }

listed :
    to_outboxes (pending_rows 1 outbox_world.tables.outbox_messages) ≡ ok (message "m-1" 10 ∷ [])
unfolding to_outboxes pending_rows sort_by outbox_row instant ◌-ℤ◌ to_outbox outbox_status
listed = refl

distinct_ids : has_duplicate (map (λ m. m.message_id) outbox_world.tables.outbox_messages) ≡ false
unfolding has_duplicate outbox_row is_member
distinct_ids = refl

published_one : (publish_outbox sample_env 1 outbox_world).0 ≡ ok 1
unfolding publish_outbox list_pending to_outboxes pending_rows sort_by outbox_row instant ◌-ℤ◌
    to_outbox outbox_status commit all_serializable publish_all send mark_published violates_keys
    has_duplicate change_row fields_serializable is_member
published_one = refl

not_committed : (publish_outbox refusing_env 1 outbox_world).0 ≡ err (operational_error "locked")
unfolding publish_outbox list_pending to_outboxes pending_rows sort_by outbox_row instant ◌-ℤ◌
    to_outbox outbox_status commit all_serializable publish_all send mark_published violates_keys
    has_duplicate change_row fields_serializable is_member
not_committed = refl

publish_outbox-deliveries_example :
    (publish_outbox sample_env 1 outbox_world).1.deliveries
    ≡ [] ++ map delivery_of (message "m-1" 10 ∷ [])
publish_outbox-deliveries_example = publish_outbox-deliveries sample_env 1 outbox_world listed

publish_outbox-pending_example :
    filter is_pending (publish_outbox sample_env 1 outbox_world).1.tables.outbox_messages
    ≡ filter
        (left_pending (map (λ m. m.message_id) (message "m-1" 10 ∷ [])))
        outbox_world.tables.outbox_messages
publish_outbox-pending_example =
    publish_outbox-pending sample_env 1 outbox_world listed distinct_ids published_one

abbrev a_scope : Scope
a_scope = record { client_code = some "CLIENT_A"; facility_code = some "DC01"; zone_code = none }

abbrev a_daemon : Daemon
a_daemon = record {
  world = sample_world;
  cache =
      record { scope = a_scope; loaded_at = utc 100; rules = rules_at (utc 100) a_scope [] } ∷ [];
}

refresh_rules-IsCurrent_example :
    (ts : Datetime) × (cache' : List Entry) × (refresh_rules (utc 500) 60 a_scope a_daemon
      ≡ (ok (rules_at ts a_scope []), record { world = sample_world; cache = cache' }))
    × (is_fresh 60 (utc 500) ts ≡ true)
    × IsCurrent [] cache'
refresh_rules-IsCurrent_example =
    refresh_rules-IsCurrent (utc 500) 60 a_scope [] a_daemon (refl, tt) refl

abbrev facade_settings : FacadeSettings
facade_settings = record {
  process = sample_settings;
  poll_batch_size = 50;
  rule_cache_ttl_seconds = 60;
}

run_once-returns_example :
    (report : CycleReport) × (d' : Daemon) × (run_once sample_env facade_settings
        (some (utc 50))
        a_daemon
      ≡ (ok report, d'))
    × (report.fetched ≡ 1)
    × (report.success + report.failed ≡ report.fetched)
    × (instant (first_cursor (some (utc 50)) (utc 500)) ≤ℤ instant report.next_updated_since)
    × All (λ o. instant o.updated_at ≤ℤ instant report.next_updated_since) (sample_order ∷ [])
    × IsOneOf
        (instant report.next_updated_since)
        (first_cursor (some (utc 50)) (utc 500))
        (sample_order ∷ [])
run_once-returns_example = run_once-returns sample_env facade_settings (some (utc 50)) a_daemon refl

abbrev policy : RetryPolicy
policy = record { max_attempts = 3; base_delay = 250; max_delay = 2000 }

-- a timeout, a server error, then an answer
abbrev flaky : ℕ → Reply
flaky zero = raised (timeout "read timeout")
flaky (suc zero) = answered (record { status_code = 503; body = null })
flaky _ = answered (record { status_code = 200; body = null })

abbrev no_trail : Trail
no_trail = record { calls = 0; sleeps = [] }

run-Decided_example : Decided policy flaky 3 no_trail (run policy flaky (λ n. 100) no_trail)
run-Decided_example = run-Decided policy flaky (λ n. 100) 2 no_trail refl

abbrev client_settings : ClientSettings
client_settings = record { base_url = "http://wms"; api_key = "key"; retry = policy }

abbrev network : Network
network = record { reply = λ n r. flaky n; jitter = λ n. 100; status_text = λ r. "status" }

request_done :
    (request client_settings network "GET" "/health" none end none no_trail).0
    ≡ ok (record { status_code = 200; body = null })
unfolding request translated raise_for_status run retry_loop judged
request_done = refl

run_once-IsTrue_example : IsTrue [] (run_once sample_env facade_settings none a_daemon).1
run_once-IsTrue_example =
    run_once-IsTrue [] sample_env facade_settings none a_daemon (refl, (refl, tt))

is_listed-eq_example : is_listed (utc 500) (some "CLIENT_A") none (some "Z1") (rule_row spain) ≡ (
    is_valid_at (to_rule (rule_row spain)) (utc 500)
    && (in_scope (some "CLIENT_A") none && in_scope none none && in_scope (some "Z1") none))
unfolding rule_row
is_listed-eq_example = is_listed-eq (utc 500) (some "CLIENT_A") none (some "Z1") (rule_row spain)
