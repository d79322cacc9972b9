-- ===== src/Audit/Delivered/Publishing.antt =====
-- The loop of the publisher and the marks of the outbox.
use rules_enrichment_daemon.Prelude.{
  ℕ, ◌≡◌, refl, ◌∙◌, ap, sym, List, [], ◌∷◌, ◌++◌, map, All, All-map, arith, eq_iff, inl, inr,
}
use mathlib.Core.Path.{subst}
use rules_enrichment_daemon.Prelude.Any.{Any, Any-append_last, Any-map}
use rules_enrichment_daemon.Domain.Errors.{Result, ok, err, Result-cases}
use rules_enrichment_daemon.Domain.Datetime.{Datetime}
use rules_enrichment_daemon.Domain.Processing.{OutboxMessage}
use rules_enrichment_daemon.Persistence.Models.{Tables, OutboxMessageModel, with_rows}
use rules_enrichment_daemon.Persistence.Session.{has_duplicate}
use rules_enrichment_daemon.Persistence.Session.Keys.{has_duplicate-AllDistinct}
use rules_enrichment_daemon.Persistence.Repositories.{
  to_outboxes, pending_rows, list_pending, mark_published, mark_failed, as_published, as_failed,
}
use rules_enrichment_daemon.Persistence.Repositories.Rows.{Any-change_row}
use rules_enrichment_daemon.Application.Environment.{Env, World, Delivery}
use rules_enrichment_daemon.Application.PublishOutbox.{
  delivery_of, send, Publishing, mark, publish_all, publish_outbox,
}
use rules_enrichment_daemon.Application.PublishOutbox.Delivered.{
  map-change_row, publish_all-deliveries, publish_all-session, started, publish_outbox-cases,
}
use rules_enrichment_daemon.Application.PublishOutbox.Drained.{with_rows-nil}
use rules_enrichment_daemon.Audit.Kept.{marked}
use rules_enrichment_daemon.Audit.Delivered.Listed.{HaveRows, pending-HaveRows}
use rules_enrichment_daemon.Audit.Delivered.{
  WasSent, IsDelivered, IsRowOf, WasSent-append, All-key, All-change_row_at,
}

-- what the loop keeps
record Holds (ms : List OutboxMessage) (t : Tables) (ds : List Delivery) : Type 0 where
  rows : HaveRows ms t.outbox_messages
  fine : IsDelivered t ds

own_id :
    (m : OutboxMessage) (rows : List OutboxMessageModel)
    → Any (IsRowOf m) rows
    → Any (λ x. (x.message_id ≡ m.message_id) × IsRowOf m x) rows
own_id m rows found = Any-map _ _ (λ x h. (h.message_id, h)) rows found

module _ (m : OutboxMessage) (ms : List OutboxMessage) (t : Tables) (ds : List Delivery) where
  -- after the sink has the message, its row is changed
  marked-Holds :
      (change : OutboxMessageModel → OutboxMessageModel)
      → ((x : OutboxMessageModel) → (change x).message_id ≡ x.message_id)
      → ((n : OutboxMessage) (x : OutboxMessageModel) → IsRowOf n x → IsRowOf n (change x))
      → ((x : OutboxMessageModel) → IsRowOf m x → WasSent (ds ++ delivery_of m ∷ []) (change x))
      → Holds (m ∷ ms) t ds
      → Holds ms (marked m.message_id change t) (ds ++ delivery_of m ∷ [])
  marked-Holds change same_id same_row sent h =
      let rows = t.outbox_messages in
      let id = λ (x : OutboxMessageModel). x.message_id in
      let distinct = h.fine.distinct in
      let own : All (λ x. x.message_id ≡ m.message_id → IsRowOf m x) rows =
        All-key id m.message_id (IsRowOf m) rows (has_duplicate-AllDistinct id rows distinct)
          (own_id m rows h.rows.0) in
      record {
        rows =
            All-map _ _
              (λ n found. Any-change_row (IsRowOf n) id m.message_id change rows (same_row n) found)
              ms h.rows.1;
        fine = record {
          distinct =
              ap has_duplicate (map-change_row id m.message_id change rows same_id) ∙ distinct;
          delivered =
              All-change_row_at id m.message_id (WasSent (ds ++ delivery_of m ∷ [])) change rows
                (All-map _ _ (λ x is e. sent x (is e)) rows own)
                (WasSent-append ds (delivery_of m ∷ []) rows h.fine.delivered);
        };
      }

  published-Holds :
      (now : Datetime)
      → Holds (m ∷ ms) t ds
      → Holds ms (marked m.message_id (as_published now) t) (ds ++ delivery_of m ∷ [])
  published-Holds now =
      marked-Holds (as_published now) (λ x. refl)
        (λ n x h. record {
          message_id = h.message_id;
          event_type = h.event_type;
          payload_json = h.payload_json;
        })
        λ x h done.
          Any-append_last _ ds (delivery_of m)
            (record { event_type = sym h.event_type; payload = sym h.payload_json })

  failed-Holds :
      Holds (m ∷ ms) t ds → Holds ms (marked m.message_id as_failed t) (ds ++ delivery_of m ∷ [])
  failed-Holds =
      marked-Holds as_failed (λ x. refl)
        (λ n x h. record {
          message_id = h.message_id;
          event_type = h.event_type;
          payload_json = h.payload_json;
        })
        λ x h done. absurd (ground (arith, eq_iff "FAILED" "PUBLISHED"))

module _ (env : Env) where
  mark-Holds :
      (m : OutboxMessage) (ms : List OutboxMessage) (r : Result (Unit {0})) (w : World)
      (p : Publishing) (ds : List Delivery)
      → w.deliveries ≡ ds ++ delivery_of m ∷ []
      → Holds (m ∷ ms) p.session.loaded ds
      → Holds ms (mark env m (r, w) p).session.loaded (mark env m (r, w) p).world.deliveries
  unfolding mark_published mark_failed
  mark-Holds m ms (ok x) w p ds sent h =
      rw sent (published-Holds m ms p.session.loaded ds (env.clock w.clock_readings) h)
  mark-Holds m ms (err e) w p ds sent h = rw sent (failed-Holds m ms p.session.loaded ds h)

  publish_all-Holds :
      (ms : List OutboxMessage) (p : Publishing)
      → Holds ms p.session.loaded p.world.deliveries
      → IsDelivered (publish_all env ms p).session.loaded (publish_all env ms p).world.deliveries
  unfolding publish_all send
  publish_all-Holds [] p h = h.fine
  publish_all-Holds (m ∷ ms) p h =
      publish_all-Holds ms (mark env m (send env m p.world) p)
        (mark-Holds m ms _ _ p p.world.deliveries refl h)

module _ (env : Env) where
  pub publish_outbox-IsDelivered :
      (batch_size : ℕ) (w : World)
      → IsDelivered w.tables w.deliveries
      → IsDelivered
          (publish_outbox env batch_size w).1.tables
          (publish_outbox env batch_size w).1.deliveries
  publish_outbox-IsDelivered batch_size w h =
      elim (Result-cases (to_outboxes (pending_rows batch_size w.tables.outbox_messages))) [
        | inr (e, unread) ↦ unfold publish_outbox in unfold list_pending in rw unread h
        | inl (ms, listed) ↦
            let p = publish_all env ms (started w) in
            let (added, committed) = publish_all-session env ms (started w) in
            elim (publish_outbox-cases env batch_size w listed) [
              | inl stored ↦
                  let loaded = p.session.loaded in
                  rw stored (
                    subst (λ t. IsDelivered t p.world.deliveries)
                      (sym (ap (with_rows loaded) added ∙ with_rows-nil loaded))
                      (publish_all-Holds env ms (started w) (record {
                        rows = pending-HaveRows batch_size w.tables.outbox_messages listed;
                        fine = h;
                      })))
              | inr (e, undone) ↦
                  rw (undone, committed, publish_all-deliveries env ms (started w))
                    (record {
                      distinct = h.distinct;
                      delivered =
                          WasSent-append w.deliveries (map delivery_of ms) w.tables.outbox_messages
                            h.delivered;
                    })
            ]
      ]
