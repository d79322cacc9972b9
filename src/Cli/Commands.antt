-- ===== src/Cli/Commands.antt =====
-- interfaces/cli/main.py: what each command does to the world, and the worlds that a sequence of
-- commands can lead to. A command is a process of its own, which starts with an empty cache and
-- without a cursor.
pub mod Keeping
use rules_enrichment_daemon.Prelude.{ℕ, Bool, none, []}
use rules_enrichment_daemon.Application.Environment.{Env, World}
use rules_enrichment_daemon.Application.Facade.{FacadeSettings}
use rules_enrichment_daemon.Workers.{Running, publish_once, daemon_passes}
use rules_enrichment_daemon.Cli as Cli

pub data Command : Type 0 where
  -- until it ends by itself in the given pass or is stopped after it
  run_daemon : (passes : ℕ) → Command
  publish_outbox : Command
  seed_rules : (force : Bool) → Command
  -- these only read or only print
  replay_dead_letter health_check validate_rules : Command

-- what `Bootstrap().polling_worker()` starts from
abbrev pub new_process : World → Running
new_process w = record { daemon = record { world = w; cache = [] }; updated_since = none }

-- the world when the command is over, whether it returns or raises
unfoldable pub execute : Env → FacadeSettings → Command → World → World
execute env settings (Command.run_daemon passes) w =
    (daemon_passes env settings passes (new_process w)).1.daemon.world
execute env settings Command.publish_outbox w = (publish_once env w).1
execute env settings (Command.seed_rules force) w = (Cli.seed_rules env force w).1
execute env settings Command.replay_dead_letter w = w
execute env settings Command.health_check w = w
execute env settings Command.validate_rules w = (Cli.validate_rules env w).1

-- Commands run one after the other, each with its own settings and in its own environment: the
-- clock, the ids, the database and the services answer as they like.
pub data Reach (start : World) : World → Type 0 where
  here : Reach start start
  next :
      {w : World}
      → Reach start w
      → (env : Env) (settings : FacadeSettings) (command : Command)
      → Reach start (execute env settings command w)
