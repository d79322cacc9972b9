-- ===== src/Application/Facade/Cycle.antt =====
-- What a polling cycle returns.
use mathlib.Core.Path.{subst}
use rules_enrichment_daemon.Prelude.{
  ℕ, ◌+◌, String, ◌≡◌, refl, ap, ◌∙◌, sym, Bool, Option, some, List, [], ◌∷◌, All, length, ◌⊎◌, inl,
  inr, Bool-cases, Option-cases, arith,
}
use rules_enrichment_daemon.Prelude.Int.{ℤ, ◌≤ℤ◌}
use rules_enrichment_daemon.Domain.Errors.{Result, ok, err}
use rules_enrichment_daemon.Domain.Datetime.{Datetime, instant, is_before, later}
use rules_enrichment_daemon.Domain.Order.{ExternalOrder}
use rules_enrichment_daemon.Domain.Rule.{EnrichmentRule}
use rules_enrichment_daemon.Domain.Rule.Validity.{sub-zero}
use rules_enrichment_daemon.Persistence.Repositories.{select_rules, list_active_rules}
use rules_enrichment_daemon.Application.Environment.{Env, World, read_clock, new_id, in_uow}
use rules_enrichment_daemon.Application.ProcessOrder.{process_order}
use rules_enrichment_daemon.Application.RulesCache.{
  Scope, Daemon, find_entry, usable, refresh_rules,
}
use rules_enrichment_daemon.Application.Facade.{
  FacadeSettings, Tally, CycleReport, aware, poll_orders, count, attempt, run_order, run_orders,
  first_cursor, run_once,
}

instant-aware : (t : Datetime) → instant (aware t) ≡ instant t
unfolding instant aware
instant-aware t = elim (Option-cases t.offset) [
  | inl naive ↦ rw (naive, sub-zero t.wall)
  | inr (o, there) ↦ rw there
]

later-left : (a b : Datetime) → instant a ≤ℤ instant (later a b)
unfolding later is_before
later-left a b = ground arith

later-right : (a b : Datetime) → instant b ≤ℤ instant (later a b)
unfolding later is_before
later-right a b = ground arith

later-cases : (a b : Datetime) → (later a b ≡ a) ⊎ (later a b ≡ b)
unfolding later
later-cases a b = elim (Bool-cases (is_before a b)) [ inl y ↦ inr (rw y) | inr n ↦ inl (rw n) ]

≤ℤ-trans : (a b c : ℤ) → a ≤ℤ b → b ≤ℤ c → a ≤ℤ c
≤ℤ-trans a b c h k = omega arith

-- `c` is the start or the time of one of the orders' updates
abbrev pub IsOneOf : ℤ → Datetime → List ExternalOrder → Type 0
IsOneOf c start [] = instant start ≡ c
IsOneOf c start (o ∷ os) = (instant o.updated_at ≡ c) ⊎ IsOneOf c start os

from_start :
    (c : ℤ) {s s' : Datetime} (os : List ExternalOrder) → s ≡ s' → IsOneOf c s os → IsOneOf c s' os
from_start c os e h = subst (λ s. IsOneOf c s os) e h

from_order :
    (c : ℤ) (s s' : Datetime) (o : ExternalOrder) (os : List ExternalOrder)
    → instant s ≡ instant o.updated_at
    → IsOneOf c s os
    → IsOneOf c s' (o ∷ os)
from_order c s s' o [] e h = inl (sym e ∙ h)
from_order c s s' o (x ∷ xs) e (inl h) = inr (inl h)
from_order c s s' o (x ∷ xs) e (inr h) = elim (from_order c s s' o xs e h) [
  | inl k ↦ inl k
  | inr k ↦ inr (inr k)
]

refresh_rules-returns :
    (now : Datetime) (ttl_seconds : ℕ) (scope : Scope) (d : Daemon)
    → (rules : List EnrichmentRule) × (d' : Daemon) × (refresh_rules now ttl_seconds scope d
        ≡ (ok rules, d'))
unfolding refresh_rules in_uow list_active_rules
refresh_rules-returns now ttl_seconds scope d =
    elim (Option-cases (usable ttl_seconds now (find_entry scope d.cache))) [
      | inl missing ↦ (
        select_rules now scope.client_code scope.facility_code scope.zone_code
            d.world.tables.enrichment_rules,
        record {
          world = d.world;
          cache =
              record {
                scope = scope;
                loaded_at = now;
                rules =
                    select_rules now scope.client_code scope.facility_code scope.zone_code
                      d.world.tables.enrichment_rules;
              }
              ∷ d.cache;
        },
        rw missing refl,
      )
      | inr (e, found) ↦ (e.rules, d, rw found refl)
    ]

count-cases :
    (r : Result (Bool × String × Bool) × World) (t : Tally)
    → (t' : Tally) × (w' : World) × (count r t ≡ (ok t', w'))
      × (t'.success + t'.failed ≡ t.success + t.failed + 1)
      × (t'.max_updated_at ≡ t.max_updated_at)
count-cases (ok x, w) t = (_, _, refl, omega arith, refl)
count-cases (err e, w) t = (_, _, refl, omega arith, refl)

abbrev pub scope_of : ExternalOrder → Scope
scope_of order = record {
  client_code = some order.client_code;
  facility_code = some order.facility_code;
  zone_code = order.zone_code;
}

module _ (env : Env) (settings : FacadeSettings) where
  run_order-returns :
      (order : ExternalOrder) (t : Tally) (d : Daemon)
      → (t' : Tally) × (d' : Daemon) × (run_order env settings order t d ≡ (ok t', d'))
        × (t'.success + t'.failed ≡ t.success + t.failed + 1)
        × (t'.max_updated_at ≡ later t.max_updated_at (aware order.updated_at))
  unfolding run_order read_clock attempt
  run_order-returns order t d =
      let now = env.clock d.world.clock_readings in
      let d1 = record d {
        world = record d.world { clock_readings = d.world.clock_readings + 1 + 1 };
      } in
      let t1 = record t { max_updated_at = later t.max_updated_at (aware order.updated_at) } in
      let (rules, d2, loaded) =
        refresh_rules-returns now settings.rule_cache_ttl_seconds (scope_of order) d1 in
      let (t', w', counted, sum, latest) =
        count-cases (process_order env settings.process order rules now d2.world) t1 in
      (t', record d2 { world = w' }, rw (loaded, counted) refl, sum, latest)

  -- the orders' updates and the start lie before the cursor, and the cursor is one of them
  run_orders-returns :
      (orders : List ExternalOrder) (t : Tally) (d : Daemon)
      → (t' : Tally) × (d' : Daemon) × (run_orders env settings orders t d ≡ (ok t', d'))
        × (t'.success + t'.failed ≡ t.success + t.failed + length orders)
        × (instant t.max_updated_at ≤ℤ instant t'.max_updated_at)
        × All (λ o. instant o.updated_at ≤ℤ instant t'.max_updated_at) orders
        × IsOneOf (instant t'.max_updated_at) t.max_updated_at orders
  unfolding run_orders
  run_orders-returns [] t d = (t, d, refl, omega arith, omega arith, tt, refl)
  run_orders-returns (order ∷ orders) t d =
      let (t1, d1, ran, sum, latest) = run_order-returns order t d in
      let (t2, d2, rest, sum', after, all, one) = run_orders-returns orders t1 d1 in
      let a = t.max_updated_at in
      let b = aware order.updated_at in
      let end = instant t2.max_updated_at in
      let below = subst (λ x. instant x ≤ℤ end) latest after in
      (
        t2,
        d2,
        rw (ran, rest) refl,
        omega arith,
        ≤ℤ-trans (instant a) _ end (later-left a b) below,
        (
          subst (λ x. x ≤ℤ end) (instant-aware order.updated_at)
              (≤ℤ-trans (instant b) _ end (later-right a b) below),
          all,
        ),
        elim (later-cases a b) [
          | inl kept ↦ inr (from_start end orders (latest ∙ kept) one)
          | inr moved ↦
              from_order end t1.max_updated_at a order orders
                (ap instant (latest ∙ moved) ∙ instant-aware order.updated_at) one
        ],
      )

  -- A polling cycle whose fetch succeeds returns, whatever becomes of each order: as many orders as
  -- were fetched have succeeded or failed, and the cursor is the latest of the start and all the
  -- orders' updates, those of failed orders included.
  pub run_once-returns :
      (updated_since : Option Datetime) (d : Daemon) {orders : List ExternalOrder}
      → env.fetch d.world.fetches updated_since settings.poll_batch_size ≡ ok orders
      → (report : CycleReport) × (d' : Daemon) × (run_once env settings updated_since d
          ≡ (ok report, d'))
        × (report.fetched ≡ length orders)
        × (report.success + report.failed ≡ report.fetched)
        × (instant (first_cursor updated_since (env.clock d.world.clock_readings))
            ≤ℤ instant report.next_updated_since)
        × All (λ o. instant o.updated_at ≤ℤ instant report.next_updated_since) orders
        × IsOneOf
            (instant report.next_updated_since)
            (first_cursor updated_since (env.clock d.world.clock_readings))
            orders
  unfolding run_once poll_orders read_clock new_id
  run_once-returns updated_since d {orders} fetched =
      let start = first_cursor updated_since (env.clock d.world.clock_readings) in
      let w1 = record d.world {
        clock_readings = d.world.clock_readings + 1;
        ids_given = d.world.ids_given + 1;
        fetches = d.world.fetches + 1;
      } in
      let (t, d2, ran, sum, after, all, one) =
        run_orders-returns orders (record { success = 0; failed = 0; max_updated_at = start })
          (record d { world = w1 }) in
      (
        record {
          fetched = length orders;
          success = t.success;
          failed = t.failed;
          next_updated_since = t.max_updated_at;
        },
        record d2 { world = record d2.world { clock_readings = d2.world.clock_readings + 1 } },
        rw (fetched, ran) refl,
        refl,
        omega arith,
        after,
        all,
        one,
      )
