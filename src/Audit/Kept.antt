-- ===== src/Audit/Kept.antt =====
-- What publishing and seeding change, as rules for predicates on the tables.
use mathlib.Core.Path.{subst}
use rules_enrichment_daemon.Prelude.{
  ℕ, String, ◌≡◌, refl, ◌+◌, ◌∙◌, ap, sym, Bool, not, ◌&&◌, ltb, length, List, [], ◌∷◌, ◌++◌, none,
  inl, inr, Option-cases, Bool-cases,
}
use rules_enrichment_daemon.Exec.{pure}
use rules_enrichment_daemon.Exec.Keeps.{Keeps-same, after_continue}
use rules_enrichment_daemon.Domain.Datetime.{Datetime}
use rules_enrichment_daemon.Domain.Errors.{Result, ok, err, Result-cases}
use rules_enrichment_daemon.Domain.Processing.{OutboxMessage}
use rules_enrichment_daemon.Domain.Rule.{EnrichmentRule}
use rules_enrichment_daemon.Persistence.Models.{
  Tables, EnrichmentRuleModel, OutboxMessageModel, ProcessedOrderModel, ProcessingAttemptModel,
  DeadLetterItemModel, with_rows,
}
use rules_enrichment_daemon.Persistence.Session.{Session, open_session}
use rules_enrichment_daemon.Persistence.Session.Transactions.{commit-cases}
use rules_enrichment_daemon.Persistence.Repositories.{
  find_row, change_row, to_outboxes, pending_rows, list_pending, mark_published, mark_failed,
  as_published, as_failed, upsert, list_active_rules, select_rules,
}
use rules_enrichment_daemon.Persistence.Repositories.Upserts.{
  upserted, upsert_many-eq, upserted-committed,
}
use rules_enrichment_daemon.Application.Environment.{Env, World, Delivery, read_clock, in_uow}
use rules_enrichment_daemon.Application.PublishOutbox.{
  send, Publishing, mark, publish_all, publish_outbox,
}
use rules_enrichment_daemon.Application.PublishOutbox.Delivered.{
  publish_all-session, started, publish_outbox-cases,
}
use rules_enrichment_daemon.Application.PublishOutbox.Drained.{with_rows-nil}
use rules_enrichment_daemon.Cli.{
  baseline_rules, count_active, insert_baseline, insert_and_report, seed_rules, seeded,
}

-- the tables once a message is marked
abbrev pub marked : String → (OutboxMessageModel → OutboxMessageModel) → Tables → Tables
marked id change t = record t {
  outbox_messages = change_row (λ m. m.message_id) id change t.outbox_messages;
}

module _ (T : Tables → Type 0)
    (keep_published : (id : String) (now : Datetime) (t : Tables)
      → T t
      → T (marked id (as_published now) t))
    (keep_failed : (id : String) (t : Tables) → T t → T (marked id as_failed t)) (env : Env) where
  mark-keeps :
      (m : OutboxMessage) (r : Result (Unit {0}) × World) (p : Publishing)
      → T p.session.loaded
      → T (mark env m r p).session.loaded
  unfolding mark_published mark_failed
  mark-keeps m (ok _, w) p h =
      keep_published m.message_id (env.clock w.clock_readings) p.session.loaded h
  mark-keeps m (err e, w) p h = keep_failed m.message_id p.session.loaded h

  publish_all-keeps :
      (ms : List OutboxMessage) (p : Publishing)
      → T p.session.loaded
      → T (publish_all env ms p).session.loaded
  unfolding publish_all
  publish_all-keeps [] p h = h
  publish_all-keeps (m ∷ ms) p h =
      publish_all-keeps ms (mark env m (send env m p.world) p)
        (mark-keeps m (send env m p.world) p h)

  pub publish_outbox-keeps :
      (batch_size : ℕ) (w : World) → T w.tables → T (publish_outbox env batch_size w).1.tables
  publish_outbox-keeps batch_size w h =
      elim (Result-cases (to_outboxes (pending_rows batch_size w.tables.outbox_messages))) [
        | inr (e, unread) ↦ unfold publish_outbox in unfold list_pending in rw unread h
        | inl (ms, listed) ↦
            let (added, committed) = publish_all-session env ms (started w) in
            elim (publish_outbox-cases env batch_size w listed) [
              | inl stored ↦
                  let loaded = (publish_all env ms (started w)).session.loaded in
                  rw stored (
                    subst T (sym (ap (with_rows loaded) added ∙ with_rows-nil loaded))
                      (publish_all-keeps ms (started w) h))
              | inr (e, undone) ↦ rw (undone, committed) h
            ]
      ]

-- all tables but that of the rules
pub record Others : Type 0 where
  pub processing_attempts : List ProcessingAttemptModel
  pub processed_orders : List ProcessedOrderModel
  pub outbox_messages : List OutboxMessageModel
  pub dead_letter_items : List DeadLetterItemModel

abbrev pub others_of : Tables → Others
others_of t = record {
  processing_attempts = t.processing_attempts;
  processed_orders = t.processed_orders;
  outbox_messages = t.outbox_messages;
  dead_letter_items = t.dead_letter_items;
}

abbrev pub with_rules : List EnrichmentRuleModel → Others → Tables
with_rules rows o = record {
  enrichment_rules = rows;
  processing_attempts = o.processing_attempts;
  processed_orders = o.processed_orders;
  outbox_messages = o.outbox_messages;
  dead_letter_items = o.dead_letter_items;
}

upserted-others :
    (rules : List EnrichmentRule) (s : Session)
    → (others_of (upserted rules s).loaded ≡ others_of s.loaded)
      × (others_of (upserted rules s).added ≡ others_of s.added)
unfolding upsert
upserted-others [] s = (refl, refl)
upserted-others (rule ∷ rules) s =
    let (loaded, added) = upserted-others rules (upsert rule s) in
    elim (Option-cases (find_row (λ r. r.rule_id) rule.rule_id s.loaded.enrichment_rules)) [
      | inl new ↦ (loaded ∙ rw new refl, added ∙ rw new refl)
      | inr (old, there) ↦ (loaded ∙ rw there refl, added ∙ rw there refl)
    ]

-- the tables once rules are upserted
upserted-with_rules :
    (rules : List EnrichmentRule) (t : Tables)
    → (rows : List EnrichmentRuleModel) × (with_rows
          (upserted rules (open_session t)).loaded
          (upserted rules (open_session t)).added
        ≡ with_rules rows (others_of t))
upserted-with_rules rules t =
    let s = upserted rules (open_session t) in
    let (loaded, added) = upserted-others rules (open_session t) in
    let joined : (a b : Others) → Others =
      λ a b. others_of (with_rows (with_rules [] a) (with_rules [] b)) in
    let rows = s.loaded.enrichment_rules ++ s.added.enrichment_rules in
    (
      rows,
      ap (with_rules rows) (
          ap (λ a. joined a (others_of s.added)) loaded
          ∙ ap (joined (others_of t)) added
          ∙ ap others_of (with_rows-nil t)),
    )

module _ (T : Tables → List Delivery → Type 0)
    (keep_rules : (rows : List EnrichmentRuleModel) (t : Tables) (ds : List Delivery)
      → T t ds
      → T (with_rules rows (others_of t)) ds)
    (env : Env) where
  insert_baseline-keeps :
      (now : Datetime) (w : World)
      → T w.tables w.deliveries
      → T (insert_baseline env now w).1.tables (insert_baseline env now w).1.deliveries
  unfolding insert_baseline in_uow
  insert_baseline-keeps now w h =
      let s = upserted (baseline_rules now) (open_session w.tables) in
      let (rows, same) = upserted-with_rules (baseline_rules now) w.tables in
      elim (commit-cases env.database s) [
        | inl stored ↦ rw (upsert_many-eq, stored, same) (keep_rules rows w.tables w.deliveries h)
        | inr (e, raised) ↦ rw (upsert_many-eq, raised, upserted-committed) h
      ]

  pub seed_rules-keeps :
      (force : Bool) (w : World)
      → T w.tables w.deliveries
      → T (seed_rules env force w).1.tables (seed_rules env force w).1.deliveries
  unfolding seed_rules insert_and_report count_active read_clock in_uow list_active_rules
  seed_rules-keeps force w h =
      let n =
        length
          (select_rules (env.clock w.clock_readings) none none none w.tables.enrichment_rules) in
      let now = env.clock (w.clock_readings + 1) in
      let w2 = record w { clock_readings = w.clock_readings + 1 + 1 } in
      elim (Bool-cases (ltb 0 n && not force)) [
        | inl busy ↦ rw busy h
        | inr free ↦ rw free (
            after_continue {Inv = λ v. T v.tables v.deliveries} (insert_baseline env now w2)
              (λ _. pure seeded) (insert_baseline-keeps now w2 h) λ _. Keeps-same (ok seeded))
      ]
