-- ===== src/Application/Facade/Unmoved.antt =====
-- Polling cycles whose orders all end alike and leave everything outside the daemon alone.
use mathlib.Core.Path.{subst}
use rules_enrichment_daemon.Prelude.{
  ℕ, suc, ◌+◌, String, ◌≡◌, refl, sym, ap, ◌∙◌, Bool, true, false, not, Option, List, [], ◌∷◌, All,
  length, arith,
}
use rules_enrichment_daemon.Domain.Errors.{Result, ok, err}
use rules_enrichment_daemon.Domain.Datetime.{Datetime, later}
use rules_enrichment_daemon.Domain.Order.{ExternalOrder}
use rules_enrichment_daemon.Persistence.Models.{Tables}
use rules_enrichment_daemon.Application.Environment.{Env, World, read_clock, new_id}
use rules_enrichment_daemon.Application.ProcessOrder.{process_order}
use rules_enrichment_daemon.Application.RulesCache.{Daemon, is_fresh}
use rules_enrichment_daemon.Application.RulesCache.Fresh.{
  IsCurrent, rules_at, refresh_rules-IsCurrent,
}
use rules_enrichment_daemon.Application.Facade.{
  FacadeSettings, Tally, CycleReport, aware, poll_orders, count, attempt, run_order, run_orders,
  first_cursor, run_once,
}
use rules_enrichment_daemon.Application.Facade.Cycle.{scope_of}

-- nothing happened that is seen from outside
pub record IsSame (before after : World) : Type 0 where
  pub tables : after.tables ≡ before.tables
  pub submissions : after.submissions ≡ before.submissions
  pub deliveries : after.deliveries ≡ before.deliveries

abbrev pub is_ok : Result (Bool × String × Bool) → Bool
is_ok (ok _) = true
is_ok (err _) = false

-- as many as there are, or none
abbrev pub share : Bool → ℕ → ℕ
share true n = n
share false n = 0

share_zero : (b : Bool) → share b 0 ≡ 0
share_zero true = refl
share_zero false = refl

share-suc : (b : Bool) (n : ℕ) → share b (suc n) ≡ share b 1 + share b n
share-suc true n = omega arith
share-suc false n = omega arith

-- processing the order with these tables, at any time and under the rules of any earlier time that
-- the cache may still answer with, ends this way and only takes an id
pub record Leaves (env : Env) (settings : FacadeSettings) (won : Bool) (t : Tables)
    (order : ExternalOrder) : Type 0 where
  pub leaves :
      (now ts : Datetime) (w : World)
      → is_fresh settings.rule_cache_ttl_seconds now ts ≡ true
      → w.tables ≡ t
      → (r : Result (Bool × String × Bool)) × (process_order env settings.process order
            (rules_at ts (scope_of order) t.enrichment_rules)
            now
            w
          ≡ (r, record w { ids_given = w.ids_given + 1 }))
        × (is_ok r ≡ won)

count-is_ok :
    (r : Result (Bool × String × Bool)) (w : World) (t : Tally)
    → (t' : Tally) × (count (r, w) t ≡ (ok t', record w { clock_readings = w.clock_readings + 1 }))
      × (t'.success ≡ t.success + share (is_ok r) 1)
      × (t'.failed ≡ t.failed + share (not (is_ok r)) 1)
count-is_ok (ok x) w t = (_, refl, refl, omega arith)
count-is_ok (err e) w t = (_, refl, omega arith, refl)

module _ (env : Env) (settings : FacadeSettings) (won : Bool) where
  run_order-IsSame :
      (order : ExternalOrder) (t : Tally) (d : Daemon)
      → Leaves env settings won d.world.tables order
      → IsCurrent d.world.tables.enrichment_rules d.cache
      → (t' : Tally) × (d' : Daemon) × (run_order env settings order t d ≡ (ok t', d'))
        × (t'.success ≡ t.success + share won 1)
        × (t'.failed ≡ t.failed + share (not won) 1)
        × IsSame d.world d'.world
        × IsCurrent d.world.tables.enrichment_rules d'.cache
  unfolding run_order read_clock attempt
  run_order-IsSame order t d known current =
      let now = env.clock d.world.clock_readings in
      let w1 : World = record d.world { clock_readings = d.world.clock_readings + 1 + 1 } in
      let d1 : Daemon = record d { world = w1 } in
      let t1 = record t { max_updated_at = later t.max_updated_at (aware order.updated_at) } in
      let (ts, cache', loaded, fresh, current') =
        refresh_rules-IsCurrent now settings.rule_cache_ttl_seconds (scope_of order)
          d.world.tables.enrichment_rules d1 current refl in
      let (r, done, ends) = known.leaves now ts w1 fresh refl in
      let (t', counted, success, failed) =
        count-is_ok r (record w1 { ids_given = w1.ids_given + 1 }) t1 in
      (
        t',
        record {
          world = record w1 {
            clock_readings = w1.clock_readings + 1;
            ids_given = d.world.ids_given + 1;
          };
          cache = cache';
        },
        rw (loaded, done, counted) refl,
        success ∙ ap (λ b. t.success + share b 1) ends,
        failed ∙ ap (λ b. t.failed + share (not b) 1) ends,
        record { tables = refl; submissions = refl; deliveries = refl },
        current',
      )

  run_orders-IsSame :
      (orders : List ExternalOrder) (t : Tally) (d : Daemon)
      → All (Leaves env settings won d.world.tables) orders
      → IsCurrent d.world.tables.enrichment_rules d.cache
      → (t' : Tally) × (d' : Daemon) × (run_orders env settings orders t d ≡ (ok t', d'))
        × (t'.success ≡ t.success + share won (length orders))
        × (t'.failed ≡ t.failed + share (not won) (length orders))
        × IsSame d.world d'.world
        × IsCurrent d.world.tables.enrichment_rules d'.cache
  unfolding run_orders
  run_orders-IsSame [] t d known current = (
    t,
    d,
    refl,
    omega (arith, share_zero won),
    omega (arith, share_zero (not won)),
    record { tables = refl; submissions = refl; deliveries = refl },
    current,
  )
  run_orders-IsSame (order ∷ orders) t d known current =
      let (t1, d1, ran, success1, failed1, same1, current1) =
        run_order-IsSame order t d known.0 current in
      let known1 : All (Leaves env settings won d1.world.tables) orders =
        subst (λ x. All (Leaves env settings won x) orders) (sym same1.tables) known.1 in
      let current1' : IsCurrent d1.world.tables.enrichment_rules d1.cache =
        subst (λ x. IsCurrent x.enrichment_rules d1.cache) (sym same1.tables) current1 in
      let (t2, d2, rest, success2, failed2, same2, current2) =
        run_orders-IsSame orders t1 d1 known1 current1' in
      (
        t2,
        d2,
        rw (ran, rest) refl,
        omega (arith, share-suc won (length orders)),
        omega (arith, share-suc (not won) (length orders)),
        record {
          tables = same2.tables ∙ same1.tables;
          submissions = same2.submissions ∙ same1.submissions;
          deliveries = same2.deliveries ∙ same1.deliveries;
        },
        subst (λ x. IsCurrent x.enrichment_rules d2.cache) same1.tables current2,
      )

  -- A cycle over such orders returns with all of them counted alike and changes nothing outside.
  pub run_once-Leaves :
      (updated_since : Option Datetime) (d : Daemon) {orders : List ExternalOrder}
      → env.fetch d.world.fetches updated_since settings.poll_batch_size ≡ ok orders
      → All (Leaves env settings won d.world.tables) orders
      → IsCurrent d.world.tables.enrichment_rules d.cache
      → (report : CycleReport) × (d' : Daemon) × (run_once env settings updated_since d
          ≡ (ok report, d'))
        × (report.fetched ≡ length orders)
        × (report.success ≡ share won (length orders))
        × (report.failed ≡ share (not won) (length orders))
        × IsSame d.world d'.world
  unfolding run_once poll_orders read_clock new_id
  run_once-Leaves updated_since d {orders} fetched known current =
      let start = first_cursor updated_since (env.clock d.world.clock_readings) in
      let w1 : World = record d.world {
        clock_readings = d.world.clock_readings + 1;
        ids_given = d.world.ids_given + 1;
        fetches = d.world.fetches + 1;
      } in
      let (t, d2, ran, success, failed, same, _) =
        run_orders-IsSame orders (record { success = 0; failed = 0; max_updated_at = start })
          (record d { world = w1 }) known current in
      (
        record {
          fetched = length orders;
          success = t.success;
          failed = t.failed;
          next_updated_since = t.max_updated_at;
        },
        record d2 { world = record d2.world { clock_readings = d2.world.clock_readings + 1 } },
        rw (fetched, ran) refl,
        refl,
        omega arith,
        omega arith,
        record {
          tables = same.tables;
          submissions = same.submissions;
          deliveries = same.deliveries;
        },
      )
