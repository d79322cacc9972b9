-- ===== src/Workers/Rounds.antt =====
-- When the daemon's loop goes on, and when it ends.
use rules_enrichment_daemon.Prelude.{
  ℕ, zero, suc, ◌+◌, ◌≡◌, refl, ap, ◌∙◌, sym, Option, none, some, List, inl, inr, Option-cases,
}
use rules_enrichment_daemon.Domain.Errors.{Error, ok, err}
use rules_enrichment_daemon.Domain.Datetime.{Datetime}
use rules_enrichment_daemon.Domain.Order.{ExternalOrder}
use rules_enrichment_daemon.Exec.Keeps.{Keeps}
use rules_enrichment_daemon.Persistence.Models.{Tables}
use rules_enrichment_daemon.Persistence.Session.{violates_keys, open_session}
use rules_enrichment_daemon.Persistence.Session.Keys.{commit-keys}
use rules_enrichment_daemon.Persistence.Repositories.{list_active_rules}
use rules_enrichment_daemon.Application.Environment.{Env, read_clock, new_id, in_uow}
use rules_enrichment_daemon.Application.Recording.{ProcessingResult, persist}
use rules_enrichment_daemon.Application.Recording.Atomic.{
  written, write_result-eq, committed-written,
}
use rules_enrichment_daemon.Application.PublishOutbox.{publish_outbox}
use rules_enrichment_daemon.Application.PublishOutbox.Drained.{HasKeys, publish_outbox-round}
use rules_enrichment_daemon.Application.RulesCache.{
  Scope, Daemon, find_entry, usable, refresh_rules,
}
use rules_enrichment_daemon.Application.Facade.{FacadeSettings, poll_orders, run_once}
use rules_enrichment_daemon.Application.Facade.Cycle.{run_once-returns}
use rules_enrichment_daemon.Application.Facade.Keeping.{process_order-Keeps, Keeps-run_once}
use rules_enrichment_daemon.Workers.{Running, poll_once, publish_once, daemon_pass, daemon_passes}
use rules_enrichment_daemon.Workers.Drain.{returned_pair}

persist-keys : (env : Env) (r : ProcessingResult) → Keeps (λ w. HasKeys w.tables) (persist env r)
unfolding persist in_uow
persist-keys env r = record {
  stays = λ w h.
      let s = written r (open_session w.tables) in
      rw (write_result-eq r (open_session w.tables)) (
        commit-keys env.database s
          (ap violates_keys (committed-written r (open_session w.tables)) ∙ h));
}

-- the cache does not change the world
pub refresh_rules-world :
    (now : Datetime) (ttl_seconds : ℕ) (scope : Scope) (d : Daemon)
    → (refresh_rules now ttl_seconds scope d).1.world ≡ d.world
unfolding refresh_rules in_uow list_active_rules
refresh_rules-world now ttl_seconds scope d =
    elim (Option-cases (usable ttl_seconds now (find_entry scope d.cache))) [
      | inl missing ↦ rw missing refl
      | inr (e, found) ↦ rw found refl
    ]

module _ (env : Env) (settings : FacadeSettings) where
  run_once-keys :
      (updated_since : Option Datetime)
      → Keeps (λ d. HasKeys d.world.tables) (run_once env settings updated_since)
  run_once-keys updated_since =
      Keeps-run_once env settings (λ t ds. HasKeys t) (λ d. HasKeys d.world.tables)
        (process_order-Keeps env settings.process (λ t ds. HasKeys t) (persist-keys env))
        (λ A m kept. record { stays = λ d h. kept.stays d.world h })
        (λ now scope. record {
          stays = λ d h.
              ap (λ w. violates_keys w.tables)
                (refresh_rules-world now settings.rule_cache_ttl_seconds scope d)
              ∙ h;
        })
        updated_since

  -- If fetching orders always succeeds, the database accepts every commit and the tables have
  -- distinct keys, any number of passes of the daemon's loop returns, whatever the API answers to
  -- submissions, whatever the sink answers and whatever the rules raise.
  pub daemon_passes-return :
      ((n : ℕ) (since : Option Datetime) (limit : ℕ)
        → (orders : List ExternalOrder) × (env.fetch n since limit ≡ ok orders))
      → ((a b : Tables) → env.database a b ≡ none)
      → (n : ℕ) (r : Running) → HasKeys r.daemon.world.tables
      → (r' : Running) × (daemon_passes env settings n r ≡ (ok tt, r'))
        × HasKeys r'.daemon.world.tables
  unfolding daemon_passes daemon_pass poll_once publish_once
  daemon_passes-return fetches accepts zero r keys = (r, refl, keys)
  daemon_passes-return fetches accepts (suc n) r keys =
      let since = r.updated_since in
      let (orders, fetched) = fetches r.daemon.world.fetches since settings.poll_batch_size in
      let (report, d, ran, more, _, _, _, _) =
        run_once-returns env settings since r.daemon fetched in
      let keys' : HasKeys d.world.tables =
        ap (λ x. violates_keys x.1.world.tables) (sym ran)
        ∙ (run_once-keys since).stays r.daemon keys in
      let (count, returns, keys'', fewer) = publish_outbox-round env 100 d.world accepts keys' in
      let next : Running = record {
        daemon = record d { world = (publish_outbox env 100 d.world).1 };
        updated_since = some report.next_updated_since;
      } in
      let (r', rest, keys''') = daemon_passes-return fetches accepts n next keys'' in
      (r', rw (ran, returned_pair (publish_outbox env 100 d.world) returns) rest, keys''')

  -- A pass in which the fetch raises ends the daemon with that exception: nothing is published, the
  -- tables and the cursor stay as they are.
  pub daemon_pass-fetch_error :
      (r : Running) {e : Error}
      → env.fetch r.daemon.world.fetches r.updated_since settings.poll_batch_size ≡ err e
      → (n : ℕ)
      → (r' : Running) × (daemon_passes env settings (suc n) r ≡ (err e, r'))
        × (r'.updated_since ≡ r.updated_since)
        × (r'.daemon.world.tables ≡ r.daemon.world.tables)
        × (r'.daemon.world.deliveries ≡ r.daemon.world.deliveries)
  unfolding daemon_passes daemon_pass poll_once run_once read_clock new_id poll_orders
  daemon_pass-fetch_error r failed n =
      let w = r.daemon.world in
      (
        record r {
          daemon = record r.daemon {
            world = record w {
              clock_readings = w.clock_readings + 1;
              ids_given = w.ids_given + 1;
              fetches = w.fetches + 1;
            };
          };
        },
        rw failed refl,
        refl,
        refl,
        refl,
      )
