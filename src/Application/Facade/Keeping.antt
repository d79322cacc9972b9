-- ===== src/Application/Facade/Keeping.antt =====
-- The invariants of a polling cycle that speak of the tables, from what persisting a result keeps.
use rules_enrichment_daemon.Prelude.{String, Bool, Option, List, [], ◌∷◌}
use rules_enrichment_daemon.Domain.Errors.{Result, ok, err}
use rules_enrichment_daemon.Domain.Datetime.{Datetime}
use rules_enrichment_daemon.Domain.Order.{ExternalOrder}
use rules_enrichment_daemon.Domain.Rule.{EnrichmentRule}
use rules_enrichment_daemon.Exec.Keeps.{Keeps, Keeps-bind, Keeps-then, Keeps-same}
use rules_enrichment_daemon.Persistence.Models.{Tables}
use rules_enrichment_daemon.Application.Environment.{
  Env, World, Delivery, Action, read_clock, new_id,
}
use rules_enrichment_daemon.Application.Payload.{submit_enrichment}
use rules_enrichment_daemon.Application.Recording.{ProcessingResult, persist}
use rules_enrichment_daemon.Application.ProcessOrder.{ProcessSettings, process_order}
use rules_enrichment_daemon.Application.ProcessOrder.DeadLetters.{move_to_dead_letter_raises}
use rules_enrichment_daemon.Application.ProcessOrder.Rules.{Keeps-process_order}
use rules_enrichment_daemon.Application.RulesCache.{Scope, Daemon, refresh_rules}
use rules_enrichment_daemon.Application.Facade.{
  FacadeSettings, Tally, in_world, poll_orders, count, attempt, run_order, run_orders, run_once,
}

-- Processing an order keeps what persisting any result keeps.
pub process_order-Keeps :
    (env : Env) (settings : ProcessSettings) (T : Tables → List Delivery → Type 0)
    → ((r : ProcessingResult) → Keeps (λ w. T w.tables w.deliveries) (persist env r))
    → (order : ExternalOrder) (rules : List EnrichmentRule) (now : Datetime)
    → Keeps (λ w. T w.tables w.deliveries) (process_order env settings order rules now)
process_order-Keeps env settings T keep_persist order rules now =
    Keeps-process_order env settings {P = λ w. T w.tables w.deliveries} keep_persist
      (λ id p c. record { stays = λ v h. unfold submit_enrichment in h })
      (λ job reason. record { stays = λ v h. rw move_to_dead_letter_raises h }) order rules now
      (record { stays = λ v h. unfold new_id in h })

module _ (env : Env) (settings : FacadeSettings) (T : Tables → List Delivery → Type 0)
    (Q : Daemon → Type 0)
    (keep_process : (order : ExternalOrder) (rules : List EnrichmentRule) (now : Datetime)
      → Keeps (λ w. T w.tables w.deliveries) (process_order env settings.process order rules now))
    (keep_in_world : (A : Type 0) (m : Action A)
      → Keeps (λ w. T w.tables w.deliveries) m
      → Keeps Q (in_world m))
    (keep_refresh : (now : Datetime) (scope : Scope)
      → Keeps Q (refresh_rules now settings.rule_cache_ttl_seconds scope)) where
  count-keeps :
      (r : Result (Bool × String × Bool) × World) (t : Tally)
      → T r.1.tables r.1.deliveries
      → T (count r t).1.tables (count r t).1.deliveries
  count-keeps (ok x, w) t h = h
  count-keeps (err e, w) t h = h

  Keeps-attempt :
      (order : ExternalOrder) (rules : List EnrichmentRule) (now : Datetime) (t : Tally)
      → Keeps (λ w. T w.tables w.deliveries) (attempt env settings.process order rules now t)
  unfolding attempt
  Keeps-attempt order rules now t = record {
    stays = λ w h.
        count-keeps (process_order env settings.process order rules now w) t
          ((keep_process order rules now).stays w h);
  }

  Keeps-read_clock : Keeps Q (in_world (read_clock env))
  Keeps-read_clock =
      keep_in_world _ (read_clock env) (record { stays = λ v h. unfold read_clock in h })

  Keeps-run_order : (order : ExternalOrder) (t : Tally) → Keeps Q (run_order env settings order t)
  unfolding run_order
  Keeps-run_order order t = Keeps-bind (in_world (read_clock env)) _ Keeps-read_clock λ now.
      Keeps-then (in_world (read_clock env)) _ Keeps-read_clock (
        Keeps-bind (refresh_rules now settings.rule_cache_ttl_seconds _) _ (keep_refresh now _)
          λ rules. keep_in_world _ _ (Keeps-attempt order rules now _))

  Keeps-run_orders :
      (orders : List ExternalOrder) (t : Tally) → Keeps Q (run_orders env settings orders t)
  unfolding run_orders
  Keeps-run_orders [] t = Keeps-same (ok t)
  Keeps-run_orders (order ∷ orders) t =
      Keeps-bind (run_order env settings order t) _ (Keeps-run_order order t)
        λ u. Keeps-run_orders orders u

  pub Keeps-run_once :
      (updated_since : Option Datetime) → Keeps Q (run_once env settings updated_since)
  unfolding run_once
  Keeps-run_once updated_since =
      Keeps-bind (in_world (read_clock env)) _ Keeps-read_clock λ started.
        Keeps-then (in_world (new_id env)) _
          (keep_in_world _ (new_id env) (record { stays = λ v k. unfold new_id in k }))
          (Keeps-bind (in_world (poll_orders env updated_since settings.poll_batch_size)) _
            (keep_in_world _ (poll_orders env updated_since settings.poll_batch_size)
              (record { stays = λ v k. unfold poll_orders in k }))
            λ orders.
              Keeps-bind (run_orders env settings orders _) _ (Keeps-run_orders orders _) λ tally.
                Keeps-then (in_world (read_clock env)) _ Keeps-read_clock (Keeps-same (ok _)))
