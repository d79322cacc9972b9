-- ===== src/Application/PublishOutbox/Drained.antt =====
-- How many messages one round of publishing leaves pending.
use mathlib.Core.List.{append-nil, Permᴰ}
use mathlib.Core.List.Permᴰ
use rules_enrichment_daemon.Prelude.{
  ℕ, ◌-◌, String, ◌≡◌, refl, ◌∙◌, ap, sym, true, false, none, List, [], ◌∷◌, map, take, filter,
  length, All, All-filter_self,
}
use rules_enrichment_daemon.Prelude.Distinct.{
  AllDistinct, AllDistinct-perm, AllDistinct-filter, length-perm, length-drop,
}
use rules_enrichment_daemon.Prelude.Sort.{sort_by, sort_by-perm, All-sort_by, filter-perm}
use rules_enrichment_daemon.Domain.Errors.{Result, ok, err}
use rules_enrichment_daemon.Domain.Datetime.{instant}
use rules_enrichment_daemon.Domain.Processing.{OutboxStatus, OutboxMessage}
use rules_enrichment_daemon.Persistence.Models.{Tables, OutboxMessageModel, no_rows, with_rows}
use rules_enrichment_daemon.Persistence.Mappers.{to_outbox, outbox_status}
use rules_enrichment_daemon.Persistence.Session.{has_duplicate, violates_keys, all_serializable}
use rules_enrichment_daemon.Persistence.Session.Keys.{
  or_parts, has_duplicate-AllDistinct, commit-settles,
}
use rules_enrichment_daemon.Persistence.Repositories.{
  change_row, is_pending, to_outboxes, pending_rows, mark_published, mark_failed, as_published,
  as_failed,
}
use rules_enrichment_daemon.Application.Environment.{Env, World}
use rules_enrichment_daemon.Application.PublishOutbox.{
  send, Publishing, mark, publish_all, publish_outbox,
}
use rules_enrichment_daemon.Application.PublishOutbox.Delivered.{
  map-change_row, left_pending, publish_all-pending, publish_all-session, started, finished,
  publish_outbox-eq,
}
use rules_enrichment_daemon.Prelude.Sort.{filter-filter}
use rules_enrichment_daemon.Application.PublishOutbox.Others.{All-take, others, others-take}

abbrev pub pending : World → List OutboxMessageModel
pending w = filter is_pending w.tables.outbox_messages

by_time : List OutboxMessageModel → List OutboxMessageModel
by_time rows = sort_by (λ m. instant m.created_at) (filter is_pending rows)

abbrev message_of : OutboxMessageModel → OutboxMessage
message_of m = record {
  message_id = m.message_id;
  aggregate_type = m.aggregate_type;
  aggregate_id = m.aggregate_id;
  event_type = m.event_type;
  payload_json = m.payload_json;
  status = OutboxStatus.pending;
  created_at = m.created_at;
  published_at = m.published_at;
}

-- every pending row reads as a message with its id
listed :
    (rows : List OutboxMessageModel)
    → All (λ m. is_pending m ≡ true) rows
    → (ms : List OutboxMessage) × (to_outboxes rows ≡ ok ms)
      × (map (λ m. m.message_id) ms ≡ map (λ m. m.message_id) rows)
unfolding to_outboxes to_outbox outbox_status
listed [] h = ([], refl, refl)
listed (row ∷ rows) h =
    let (ms, read, ids) = listed rows h.1 in
    (message_of row ∷ ms, rw (h.0, read) refl, ap (λ k. row.message_id ∷ k) ids)

pending_rows-All :
    (n : ℕ) (rows : List OutboxMessageModel) → All (λ m. is_pending m ≡ true) (pending_rows n rows)
unfolding pending_rows
pending_rows-All n rows = All-take _ n _ (
    All-sort_by (λ m. instant m.created_at) _ (filter is_pending rows)
      (All-filter_self is_pending rows))

-- the keys of the tables, none twice
abbrev pub HasKeys : Tables → Type 0
HasKeys t = violates_keys t ≡ false

pub with_rows-nil : (t : Tables) → with_rows t no_rows ≡ t
with_rows-nil t = λ i. record {
  enrichment_rules = append-nil t.enrichment_rules i;
  processing_attempts = append-nil t.processing_attempts i;
  processed_orders = append-nil t.processed_orders i;
  outbox_messages = append-nil t.outbox_messages i;
  dead_letter_items = append-nil t.dead_letter_items i;
}

pub message_ids-distinct :
    (t : Tables) → HasKeys t → has_duplicate (map (λ m. m.message_id) t.outbox_messages) ≡ false
unfolding violates_keys
message_ids-distinct t h =
    (or_parts _ (has_duplicate (map (λ m. m.message_id) t.outbox_messages)) h).1

change_message-keys :
    (id : String) (change : OutboxMessageModel → OutboxMessageModel) (t : Tables)
    → ((m : OutboxMessageModel) → (change m).message_id ≡ m.message_id)
    → violates_keys
        (record t { outbox_messages = change_row (λ m. m.message_id) id change t.outbox_messages })
      ≡ violates_keys t
unfolding violates_keys
change_message-keys id change t same =
    rw (map-change_row (λ m. m.message_id) id change t.outbox_messages same) refl

-- the pending rows behind a batch, in number
left_over :
    (batch_size : ℕ) (rows : List OutboxMessageModel)
    → has_duplicate (map (λ m. m.message_id) rows) ≡ false
    → length (filter (left_pending (map (λ m. m.message_id) (pending_rows batch_size rows))) rows)
      ≡ length (filter is_pending rows) - batch_size
unfolding pending_rows
left_over batch_size rows distinct =
    let id = λ (m : OutboxMessageModel). m.message_id in
    let inside = filter is_pending rows in
    let sorted = sort_by (λ m. instant m.created_at) inside in
    let ids = map id (take batch_size sorted) in
    let order : Permᴰ sorted inside = sort_by-perm (λ m. instant m.created_at) inside in
    let apart : AllDistinct id sorted =
      AllDistinct-perm id (Permᴰ.symm order)
        (AllDistinct-filter is_pending id rows (has_duplicate-AllDistinct id rows distinct)) in
    ap length (filter-filter is_pending (others id ids) rows)
    ∙ sym (length-perm (filter-perm (others id ids) order))
    ∙ ap length (others-take id batch_size sorted apart)
    ∙ length-drop batch_size sorted
    ∙ ap (λ n. n - batch_size) (length-perm order)

module _ (env : Env) where
  -- the loop keeps the keys and binds no JSON value
  mark-keys :
      (m : OutboxMessage) (r : Result (Unit {0}) × World) (p : Publishing)
      → (violates_keys (mark env m r p).session.loaded ≡ violates_keys p.session.loaded)
        × ((mark env m r p).session.bound ≡ p.session.bound)
  unfolding mark_published mark_failed
  mark-keys m (ok _, w) p = (
    change_message-keys m.message_id (as_published (env.clock w.clock_readings)) p.session.loaded
        (λ x. refl),
    refl,
  )
  mark-keys m (err e, w) p =
      (change_message-keys m.message_id as_failed p.session.loaded (λ x. refl), refl)

  publish_all-keys :
      (ms : List OutboxMessage) (p : Publishing)
      → (violates_keys (publish_all env ms p).session.loaded ≡ violates_keys p.session.loaded)
        × ((publish_all env ms p).session.bound ≡ p.session.bound)
  unfolding publish_all
  publish_all-keys [] p = (refl, refl)
  publish_all-keys (m ∷ ms) p =
      let (keys, bound) = publish_all-keys ms (mark env m (send env m p.world) p) in
      let (keys', bound') = mark-keys m (send env m p.world) p in (keys ∙ keys', bound ∙ bound')

  -- a round over these messages, if the database accepts
  publish_outbox-stored :
      (batch_size : ℕ) (w : World) (ms : List OutboxMessage)
      → ((a b : Tables) → env.database a b ≡ none)
      → HasKeys w.tables
      → to_outboxes (pending_rows batch_size w.tables.outbox_messages) ≡ ok ms
      → publish_outbox env batch_size w ≡ (
        ok (finished env ms w).published,
        record (finished env ms w).world { tables = (finished env ms w).session.loaded },
      )
  unfolding all_serializable
  publish_outbox-stored batch_size w ms accepts keys read =
      let p = finished env ms w in
      let same : with_rows p.session.loaded p.session.added ≡ p.session.loaded =
        ap (with_rows p.session.loaded) (publish_all-session env ms (started w)).0
        ∙ with_rows-nil p.session.loaded in
      let fine : all_serializable p.session.bound ≡ true =
        ap all_serializable (publish_all-keys ms (started w)).1 in
      let free : violates_keys (with_rows p.session.loaded p.session.added) ≡ false =
        ap violates_keys same ∙ (publish_all-keys ms (started w)).0 ∙ keys in
      rw
        (
          publish_outbox-eq env batch_size w read,
          commit-settles env.database p.session fine free,
          accepts,
          same,
        )
        refl

  -- one round takes a batch off the pending messages
  pub publish_outbox-round :
      (batch_size : ℕ) (w : World)
      → ((a b : Tables) → env.database a b ≡ none)
      → HasKeys w.tables
      → (n : ℕ) × ((publish_outbox env batch_size w).0 ≡ ok n)
        × HasKeys (publish_outbox env batch_size w).1.tables
        × (length (pending (publish_outbox env batch_size w).1) ≡ length (pending w) - batch_size)
  publish_outbox-round batch_size w accepts keys =
      let rows = w.tables.outbox_messages in
      let batch = pending_rows batch_size rows in
      let (ms, read, ids) = listed batch (pending_rows-All batch_size rows) in
      let p = finished env ms w in
      let distinct = message_ids-distinct w.tables keys in
      rw (publish_outbox-stored batch_size w ms accepts keys read) (
        p.published,
        refl,
        (publish_all-keys ms (started w)).0 ∙ keys,
        ap length (publish_all-pending env ms (started w) distinct)
            ∙ ap (λ is. length (filter (left_pending is) rows)) ids
            ∙ left_over batch_size rows distinct,
      )
