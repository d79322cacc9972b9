-- ===== src/Cli/Commands/Keeping.antt =====
-- Invariants of commands, from those of an order, of a batch of the outbox and of seeding.
use rules_enrichment_daemon.Prelude.{ℕ, zero, suc, Bool, Option, List}
use rules_enrichment_daemon.Domain.Datetime.{Datetime}
use rules_enrichment_daemon.Domain.Errors.{Result, ok, err}
use rules_enrichment_daemon.Domain.Order.{ExternalOrder}
use rules_enrichment_daemon.Domain.Rule.{EnrichmentRule}
use rules_enrichment_daemon.Exec.Keeps.{Keeps, Keeps-then, Keeps-same}
use rules_enrichment_daemon.Persistence.Models.{Tables}
use rules_enrichment_daemon.Persistence.Repositories.{list_active_rules}
use rules_enrichment_daemon.Application.Environment.{Env, World, Delivery, read_clock, in_uow}
use rules_enrichment_daemon.Application.ProcessOrder.{ProcessSettings, process_order}
use rules_enrichment_daemon.Application.RulesCache.{Daemon}
use rules_enrichment_daemon.Application.PublishOutbox.{publish_outbox}
use rules_enrichment_daemon.Application.Facade.{FacadeSettings, CycleReport, run_once}
use rules_enrichment_daemon.Application.Facade.Keeping.{Keeps-run_once}
use rules_enrichment_daemon.Workers.{
  Running, remember, poll_once, publish_once, daemon_pass, daemon_passes,
}
use rules_enrichment_daemon.Workers.Rounds.{refresh_rules-world}
use rules_enrichment_daemon.Cli.{count_active, validate_rules, seed_rules}
use rules_enrichment_daemon.Cli.Commands.{Command, execute, new_process, Reach, here, next}

module _ (T : Tables → List Delivery → Type 0)
    (keep_process : (env : Env) (settings : ProcessSettings) (order : ExternalOrder)
        (rules : List EnrichmentRule) (now : Datetime)
      → Keeps (λ w. T w.tables w.deliveries) (process_order env settings order rules now))
    (keep_publish : (env : Env) (batch_size : ℕ)
      → Keeps (λ w. T w.tables w.deliveries) (publish_outbox env batch_size))
    (keep_seed : (env : Env) (force : Bool)
      → Keeps (λ w. T w.tables w.deliveries) (seed_rules env force)) where
  abbrev InWorld : World → Type 0
  InWorld w = T w.tables w.deliveries

  abbrev InDaemon : Daemon → Type 0
  InDaemon d = InWorld d.world

  module _ (env : Env) (settings : FacadeSettings) where
    Keeps-cycle : (since : Option Datetime) → Keeps InDaemon (run_once env settings since)
    Keeps-cycle since =
        Keeps-run_once env settings T InDaemon (keep_process env settings.process)
          (λ A m kept. record { stays = λ d h. kept.stays d.world h })
          (λ now scope. record { stays = λ d h. rw refresh_rules-world h }) since

    remember-InDaemon :
        (x : Result CycleReport × Daemon) (r : Running)
        → InDaemon x.1
        → InDaemon (remember x r).1.daemon
    remember-InDaemon (ok report, d) r h = h
    remember-InDaemon (err e, d) r h = h

    Keeps-daemon_pass : Keeps (λ r. InDaemon r.daemon) (daemon_pass env settings)
    unfolding daemon_pass poll_once publish_once
    Keeps-daemon_pass =
        Keeps-then (poll_once env settings) _
          (record {
            stays = λ r h.
                remember-InDaemon (run_once env settings r.updated_since r.daemon) r
                  ((Keeps-cycle r.updated_since).stays r.daemon h);
          })
          (record { stays = λ r h. (keep_publish env 100).stays r.daemon.world h })

    Keeps-daemon_passes : (n : ℕ) → Keeps (λ r. InDaemon r.daemon) (daemon_passes env settings n)
    unfolding daemon_passes
    Keeps-daemon_passes zero = Keeps-same (ok tt)
    Keeps-daemon_passes (suc n) =
        Keeps-then (daemon_pass env settings) _ Keeps-daemon_pass (Keeps-daemon_passes n)

    execute-InWorld :
        (command : Command) (w : World) → InWorld w → InWorld (execute env settings command w)
    unfolding execute publish_once validate_rules count_active read_clock in_uow list_active_rules
    execute-InWorld (Command.run_daemon passes) w h =
        (Keeps-daemon_passes passes).stays (new_process w) h
    execute-InWorld Command.publish_outbox w h = (keep_publish env 100).stays w h
    execute-InWorld (Command.seed_rules force) w h = (keep_seed env force).stays w h
    execute-InWorld Command.replay_dead_letter w h = h
    execute-InWorld Command.health_check w h = h
    execute-InWorld Command.validate_rules w h = h

  pub Reach-InWorld : {start w : World} → InWorld start → Reach start w → InWorld w
  Reach-InWorld h here = h
  Reach-InWorld h (next {w} reached env settings command) =
      execute-InWorld env settings command w (Reach-InWorld h reached)
