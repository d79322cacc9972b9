-- ===== src/Tests/Reached.antt =====
-- What commands leave behind, and the ways in which an order ends.
use rules_enrichment_daemon.Prelude.{[], true}
use rules_enrichment_daemon.Application.ProcessOrder.{process_order}
use rules_enrichment_daemon.Application.ProcessOrder.Outcome.{
  Outcome, next_attempt, process_order-Outcome,
}
use rules_enrichment_daemon.Application.Environment.{Env}
use rules_enrichment_daemon.Application.Facade.{FacadeSettings}
use rules_enrichment_daemon.Domain.Errors.{err, foreign}
use rules_enrichment_daemon.Cli.Commands.{Command, execute, here, next}
use rules_enrichment_daemon.Audit.{IsAudited}
use rules_enrichment_daemon.Audit.Reached.{no_rows-IsAudited, Reach-IsAudited}
use rules_enrichment_daemon.Audit.Delivered.{IsDelivered}
use rules_enrichment_daemon.Audit.Delivered.Reached.{no_rows-IsDelivered, Reach-IsDelivered}
use rules_enrichment_daemon.Tests.Samples.{
  utc, sample_order, sample_rules, sample_env, sample_settings, sample_world,
}

-- the API refuses every submission
abbrev refusing_env : Env
refusing_env = record sample_env { submit = λ n id payload c. err (foreign "503") }

abbrev settings : FacadeSettings
settings = record { process = sample_settings; poll_batch_size = 50; rule_cache_ttl_seconds = 60 }

process_order-Outcome_example :
    Outcome
      (next_attempt refusing_env sample_order sample_world)
      sample_world.tables
      (process_order refusing_env sample_settings sample_order sample_rules
        (utc 500)
        sample_world).0
      (process_order refusing_env sample_settings sample_order sample_rules
        (utc 500)
        sample_world).1.tables
process_order-Outcome_example =
    process_order-Outcome refusing_env sample_settings sample_order sample_rules (utc 500)
      sample_world

-- rules are seeded, the daemon makes two passes while the API is away, and two when it is back
Reach-IsAudited_example :
    IsAudited
      (execute sample_env settings (Command.run_daemon 2) (
        execute refusing_env settings
          (Command.run_daemon 2)
          (execute sample_env settings (Command.seed_rules true) sample_world))).tables
Reach-IsAudited_example = Reach-IsAudited no_rows-IsAudited (
    next
      (next (next here sample_env settings (Command.seed_rules true)) refusing_env settings
        (Command.run_daemon 2))
      sample_env settings (Command.run_daemon 2))

Reach-IsDelivered_example :
    IsDelivered
      (execute sample_env settings (Command.run_daemon 2) sample_world).tables
      (execute sample_env settings (Command.run_daemon 2) sample_world).deliveries
Reach-IsDelivered_example =
    Reach-IsDelivered (no_rows-IsDelivered [])
      (next here sample_env settings (Command.run_daemon 2))
