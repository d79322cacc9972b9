-- ===== src/Tests/Daemon.antt =====
-- The loops of the workers and the commands.
use rules_enrichment_daemon.Prelude.{
  ℕ, zero, suc, String, Bool, ◌≡◌, refl, true, false, none, some, [], ◌∷◌, length, ◌≤◌, ◌*◌, arith,
}
use rules_enrichment_daemon.Domain.Errors.{ok, err, external_api_timeout}
use rules_enrichment_daemon.Domain.Order.{is_member}
use rules_enrichment_daemon.Domain.Processing.{OutboxStatus, OutboxMessage}
use rules_enrichment_daemon.Domain.Json.{str, end, field}
use rules_enrichment_daemon.Persistence.Models.{no_rows}
use rules_enrichment_daemon.Persistence.Mappers.{outbox_row}
use rules_enrichment_daemon.Persistence.Session.{has_duplicate, violates_keys}
use rules_enrichment_daemon.Application.Environment.{Env, World}
use rules_enrichment_daemon.Application.PublishOutbox.Drained.{pending, HasKeys}
use rules_enrichment_daemon.Application.Facade.{FacadeSettings}
use rules_enrichment_daemon.Workers.{Running, publisher_passes, daemon_passes}
use rules_enrichment_daemon.Exec.{pure, ◌>>◌}
use rules_enrichment_daemon.Workers.Stopping.{publisher_forever, publisher_forever-passes}
use rules_enrichment_daemon.Workers.Drain.{publisher_passes-drain}
use rules_enrichment_daemon.Workers.Rounds.{daemon_passes-return, daemon_pass-fetch_error}
use rules_enrichment_daemon.Cli.Seeding.{Outcome, seed_rules-Outcome}
use rules_enrichment_daemon.Tests.Samples.{
  utc, sample_order, sample_env, sample_settings, sample_world, world_of,
}

abbrev message : String → ℕ → OutboxMessage
message id at = record {
  message_id = id;
  aggregate_type = "Order";
  aggregate_id = "ORD-1";
  event_type = "OrderEnrichmentSucceeded";
  payload_json = field "event" (str "OrderEnrichmentSucceeded") end;
  status = OutboxStatus.pending;
  created_at = utc at;
  published_at = none;
}

abbrev outbox_world : World
outbox_world = world_of (record no_rows {
  outbox_messages = outbox_row (message "m-2" 20) ∷ outbox_row (message "m-1" 10) ∷ [];
})

outbox_keys : HasKeys outbox_world.tables
unfolding violates_keys has_duplicate outbox_row is_member
outbox_keys = refl

two_pending : length (pending outbox_world) ≤ 1 * 100
unfolding outbox_row
two_pending = omega arith

publisher_passes-drain_example :
    (w' : World) × (publisher_passes sample_env 1 outbox_world ≡ (ok tt, w'))
    × (pending w' ≡ [])
    × HasKeys w'.tables
publisher_passes-drain_example =
    publisher_passes-drain sample_env (λ a b. refl) 1 outbox_world outbox_keys two_pending

abbrev settings : FacadeSettings
settings = record { process = sample_settings; poll_batch_size = 50; rule_cache_ttl_seconds = 60 }

abbrev running : Running
running = record {
  daemon = record { world = outbox_world; cache = [] };
  updated_since = some (utc 50);
}

daemon_passes-return_example :
    (r' : Running) × (daemon_passes sample_env settings 2 running ≡ (ok tt, r'))
    × HasKeys r'.daemon.world.tables
daemon_passes-return_example =
    daemon_passes-return sample_env settings (λ n since limit. (sample_order ∷ [], refl))
      (λ a b. refl) 2 running outbox_keys

-- the API is away
abbrev away_env : Env
away_env = record sample_env { fetch = λ n since limit. err (external_api_timeout "read timeout") }

daemon_pass-fetch_error_example :
    (r' : Running) × (daemon_passes away_env settings (suc 4) running
      ≡ (err (external_api_timeout "read timeout"), r'))
    × (r'.updated_since ≡ running.updated_since)
    × (r'.daemon.world.tables ≡ running.daemon.world.tables)
    × (r'.daemon.world.deliveries ≡ running.daemon.world.deliveries)
daemon_pass-fetch_error_example = daemon_pass-fetch_error away_env settings running refl 4

seed_rules-Outcome_example : Outcome sample_env true sample_world
seed_rules-Outcome_example = seed_rules-Outcome sample_env true sample_world

-- `stop` comes during the second pass
abbrev stops : ℕ → Bool
stops zero = false
stops (suc i) = true

publisher_forever-passes_example :
    publisher_forever sample_env 5 stops outbox_world
    ≡ (publisher_passes sample_env (suc 1) >> pure true) outbox_world
publisher_forever-passes_example =
    publisher_forever-passes sample_env 1 5 stops (omega arith) (refl, refl) outbox_world
