-- ===== src/Application/Facade.antt =====
-- facades/enrichment_facade.py with use_cases/poll_orders.py: one polling cycle. The logging is left
-- out but for the times that it reads.
pub mod Cycle
pub mod Keeping
pub mod Poisoned
pub mod Quiet
pub mod Rules
pub mod Unmoved
use rules_enrichment_daemon.Prelude.{
  ℕ, ◌+◌, Option, none, some, List, [], ◌∷◌, length, String, Bool,
}
use rules_enrichment_daemon.Domain.Errors.{Error, Result, ok, err}
use rules_enrichment_daemon.Domain.Datetime.{Datetime, replace_utc, later}
use rules_enrichment_daemon.Domain.Order.{ExternalOrder}
use rules_enrichment_daemon.Domain.Rule.{EnrichmentRule}
use rules_enrichment_daemon.Exec.{Exec, pure, ◌>>=◌, ◌>>◌}
use rules_enrichment_daemon.Application.Environment.{Env, World, Action, read_clock, new_id}
use rules_enrichment_daemon.Application.ProcessOrder.{ProcessSettings, process_order}
use rules_enrichment_daemon.Application.RulesCache.{Daemon, refresh_rules}

pub record FacadeSettings : Type 0 where
  pub process : ProcessSettings
  pub poll_batch_size : ℕ
  pub rule_cache_ttl_seconds : ℕ

-- `EnrichmentFacade._as_utc`
unfoldable pub aware : Datetime → Datetime
aware t = elim t.offset [ none ↦ replace_utc t | some o ↦ t ]

-- an action of a use case that has no memory of its own
abbrev pub in_world : {A : Type 0} → Action A → Exec Daemon A
in_world m d = let r = m d.world in (r.0, record d { world = r.1 })

-- `PollOrdersForEnrichmentUseCase.execute`
unfoldable pub poll_orders : Env → Option Datetime → ℕ → Action (List ExternalOrder)
poll_orders env updated_since limit w =
    (env.fetch w.fetches updated_since limit, record w { fetches = w.fetches + 1 })

-- the counters of the loop and the latest update
pub record Tally : Type 0 where
  pub success : ℕ
  pub failed : ℕ
  pub max_updated_at : Datetime

-- the end of the `try` statement: either log reads the clock once more
abbrev pub count : Result (Bool × String × Bool) × World → Tally → Result Tally × World
count (ok _, w) t =
    (ok (record t { success = t.success + 1 }), record w { clock_readings = w.clock_readings + 1 })
count (err e, w) t =
    (ok (record t { failed = t.failed + 1 }), record w { clock_readings = w.clock_readings + 1 })

unfoldable pub attempt :
    Env → ProcessSettings → ExternalOrder → List EnrichmentRule → Datetime → Tally → Action Tally
attempt env settings order rules now t w = count (process_order env settings order rules now w) t

-- the body of the loop
unfoldable pub run_order : Env → FacadeSettings → ExternalOrder → Tally → Exec Daemon Tally
run_order env settings order t = do
  now ← in_world (read_clock env)
  in_world (read_clock env)
  rules ← refresh_rules now settings.rule_cache_ttl_seconds (record {
    client_code = some order.client_code;
    facility_code = some order.facility_code;
    zone_code = order.zone_code;
  })
  in_world (
      attempt env settings.process order rules now
        (record t { max_updated_at = later t.max_updated_at (aware order.updated_at) }))

unfoldable pub run_orders : Env → FacadeSettings → List ExternalOrder → Tally → Exec Daemon Tally
run_orders env settings [] t = pure t
run_orders env settings (order ∷ orders) t =
    run_order env settings order t >>= run_orders env settings orders

-- `_as_utc(updated_since) if updated_since else started`
abbrev pub first_cursor : Option Datetime → Datetime → Datetime
first_cursor none started = started
first_cursor (some since) started = aware since

-- what `run_once` returns
pub record CycleReport : Type 0 where
  pub fetched : ℕ
  pub success : ℕ
  pub failed : ℕ
  pub next_updated_since : Datetime

-- `EnrichmentFacade.run_once`
unfoldable pub run_once : Env → FacadeSettings → Option Datetime → Exec Daemon CycleReport
run_once env settings updated_since = do
  started ← in_world (read_clock env)
  in_world (new_id env)
  orders ← in_world (poll_orders env updated_since settings.poll_batch_size)
  tally ←
      run_orders env settings orders
        (record { success = 0; failed = 0; max_updated_at = first_cursor updated_since started })
  in_world (read_clock env)
  pure (record {
    fetched = length orders;
    success = tally.success;
    failed = tally.failed;
    next_updated_since = tally.max_updated_at;
  })
