-- ===== src/Workers.antt =====
-- infrastructure/workers and the loop of `run-daemon` in interfaces/cli/main.py. A loop without end is
-- modelled by its first passes; the sleeps between them are left out. Stopping has `stop`.
pub mod Drain
pub mod Rounds
pub mod Stopping
use rules_enrichment_daemon.Prelude.{
  ℕ, zero, suc, ◌≡◌, Option, none, some, Bool, true, false, if◌then◌else◌,
}
use rules_enrichment_daemon.Domain.Errors.{Result, ok, err}
use rules_enrichment_daemon.Domain.Datetime.{Datetime}
use rules_enrichment_daemon.Exec.{Exec, pure, ◌>>=◌, ◌>>◌}
use rules_enrichment_daemon.Application.Environment.{Env, Action}
use rules_enrichment_daemon.Application.PublishOutbox.{publish_outbox}
use rules_enrichment_daemon.Application.RulesCache.{Daemon}
use rules_enrichment_daemon.Application.Facade.{FacadeSettings, CycleReport, in_world, run_once}

-- `PollingWorker` with the daemon that it runs in
pub record Running : Type 0 where
  pub daemon : Daemon
  pub updated_since : Option Datetime

abbrev on_daemon : {A : Type 0} → Exec Daemon A → Exec Running A
on_daemon m r = let x = m r.daemon in (x.0, record r { daemon = x.1 })

-- `PollingWorker.run_once`: the cursor moves only if the cycle returns
abbrev pub remember : Result CycleReport × Daemon → Running → Result CycleReport × Running
remember (ok report, d) r =
    (ok report, record { daemon = d; updated_since = some report.next_updated_since })
remember (err e, d) r = (err e, record r { daemon = d })

unfoldable pub poll_once : Env → FacadeSettings → Exec Running CycleReport
poll_once env settings r = remember (run_once env settings r.updated_since r.daemon) r

-- `OutboxPublisherWorker.run_once`
unfoldable pub publish_once : Env → Action ℕ
publish_once env = publish_outbox env 100

-- the first passes of the loop in `OutboxPublisherWorker.run_forever`
unfoldable pub publisher_passes : Env → ℕ → Action (Unit {0})
publisher_passes env zero = pure tt
publisher_passes env (suc n) = publish_once env >> publisher_passes env n

-- the first passes of the loop in `PollingWorker.run_forever`
unfoldable pub polling_passes : Env → FacadeSettings → ℕ → Exec Running (Unit {0})
polling_passes env settings zero = pure tt
polling_passes env settings (suc n) = poll_once env settings >> polling_passes env settings n

-- the body of the loop in `run_daemon`
unfoldable pub daemon_pass : Env → FacadeSettings → Exec Running ℕ
daemon_pass env settings = poll_once env settings >> on_daemon (in_world (publish_once env))

-- its first passes
unfoldable pub daemon_passes : Env → FacadeSettings → ℕ → Exec Running (Unit {0})
daemon_passes env settings zero = pure tt
daemon_passes env settings (suc n) = daemon_pass env settings >> daemon_passes env settings n
