-- ===== src/Application/PublishOutbox/Delivered.antt =====
-- What publishing delivers, and what it leaves pending.
use mathlib.Core.List.{append-nil, append_assoc}
use rules_enrichment_daemon.Prelude.{
  ℕ, String, ◌≡◌, refl, ◌∙◌, ap, sym, Bool, true, false, not, ◌&&◌, List, [], ◌∷◌, ◌++◌, map,
  filter, ◌⊎◌, inl, inr, arith, str_eq, eq_iff,
}
use rules_enrichment_daemon.Domain.Errors.{Error, Result, ok, err}
use rules_enrichment_daemon.Domain.Order.{is_member}
use rules_enrichment_daemon.Domain.Processing.{OutboxMessage}
use rules_enrichment_daemon.Persistence.Models.{OutboxMessageModel, with_rows}
use rules_enrichment_daemon.Persistence.Session.{has_duplicate, commit, open_session, closed}
use rules_enrichment_daemon.Persistence.Session.Transactions.{commit-cases}
use rules_enrichment_daemon.Persistence.Repositories.{
  change_row, is_pending, to_outboxes, pending_rows, list_pending, mark_published, mark_failed,
}
use rules_enrichment_daemon.Application.Environment.{Env, World, back_in}
use rules_enrichment_daemon.Application.PublishOutbox.{
  delivery_of, send, Publishing, mark, returned, publish_all, publish_outbox,
}

module _ {A : Type 0} where
  pub filter-ext :
      (p q : A → Bool) (xs : List A) → ((x : A) → p x ≡ q x) → filter p xs ≡ filter q xs
  filter-ext p q [] h = refl
  filter-ext p q (x ∷ xs) h = rw (h x, filter-ext p q xs h)

  module _ (id : A → String) (key : String) (q : A → Bool) where
    filter-absent :
        (xs : List A)
        → is_member key (map id xs) ≡ false
        → filter (λ x. q x && not (str_eq (id x) key)) xs ≡ filter q xs
    unfolding is_member
    filter-absent [] h = refl
    filter-absent (x ∷ xs) h = ground (arith, filter-absent xs)

    -- a change that takes a row out of a selection
    filter-change_row :
        (change : A → A) (xs : List A)
        → ((x : A) → q (change x) ≡ false)
        → has_duplicate (map id xs) ≡ false
        → filter q (change_row id key change xs) ≡ filter (λ x. q x && not (str_eq (id x) key)) xs
    unfolding change_row has_duplicate
    filter-change_row change [] out distinct = refl
    filter-change_row change (x ∷ xs) out distinct =
        ground (arith, out x, filter-change_row change xs out, filter-absent xs, eq_iff (id x) key)

  pub map-change_row :
      (id : A → String) (key : String) (change : A → A) (xs : List A)
      → ((x : A) → id (change x) ≡ id x)
      → map id (change_row id key change xs) ≡ map id xs
  unfolding change_row
  map-change_row id key change [] h = refl
  map-change_row id key change (x ∷ xs) h = ground (arith, h x, map-change_row id key change xs h)

abbrev rows_of : Publishing → List OutboxMessageModel
rows_of p = p.session.loaded.outbox_messages

-- a pending message with none of these ids
abbrev pub left_pending : List String → OutboxMessageModel → Bool
left_pending ids m = is_pending m && not (is_member m.message_id ids)

and-true : (b : Bool) → (b && true) ≡ b
and-true true = refl
and-true false = refl

left_pending-cons :
    (id : String) (ids : List String) (m : OutboxMessageModel)
    → (left_pending ids m && not (str_eq m.message_id id)) ≡ left_pending (id ∷ ids) m
unfolding is_member
left_pending-cons id ids m = ground (arith, eq_iff m.message_id id, eq_iff id m.message_id)

module _ (env : Env) where
  mark-deliveries :
      (m : OutboxMessage) (r : Result (Unit {0})) (w : World) (p : Publishing)
      → (mark env m (r, w) p).world.deliveries ≡ w.deliveries
  mark-deliveries m (ok x) w p = refl
  mark-deliveries m (err e) w p = refl

  pub publish_all-deliveries :
      (ms : List OutboxMessage) (p : Publishing)
      → (publish_all env ms p).world.deliveries ≡ p.world.deliveries ++ map delivery_of ms
  unfolding publish_all send
  publish_all-deliveries [] p = sym (append-nil p.world.deliveries)
  publish_all-deliveries (m ∷ ms) p =
      publish_all-deliveries ms (mark env m (send env m p.world) p)
      ∙ ap (λ x. x ++ map delivery_of ms) (mark-deliveries m _ _ p)
      ∙ append_assoc p.world.deliveries _ _

  -- what one message does to the table of messages
  mark-rows :
      (m : OutboxMessage) (r : Result (Unit {0}) × World) (p : Publishing)
      → has_duplicate (map (λ x. x.message_id) (rows_of p)) ≡ false
      → (map (λ x. x.message_id) (rows_of (mark env m r p)) ≡ map (λ x. x.message_id) (rows_of p))
        × ((q : OutboxMessageModel → Bool)
            → ((x : OutboxMessageModel) → is_pending x ≡ false → q x ≡ false)
            → filter q (rows_of (mark env m r p))
              ≡ filter (λ x. q x && not (str_eq x.message_id m.message_id)) (rows_of p))
  unfolding mark_published mark_failed
  mark-rows m (ok _, w) p distinct = (
    map-change_row (λ x. x.message_id) m.message_id _ _ (λ x. refl),
    λ q pending.
        filter-change_row (λ x. x.message_id) m.message_id q _ _ (λ x. pending _ refl) distinct,
  )
  mark-rows m (err e, w) p distinct = (
    map-change_row (λ x. x.message_id) m.message_id _ _ (λ x. refl),
    λ q pending.
        filter-change_row (λ x. x.message_id) m.message_id q _ _ (λ x. pending _ refl) distinct,
  )

  pub publish_all-pending :
      (ms : List OutboxMessage) (p : Publishing)
      → has_duplicate (map (λ x. x.message_id) (rows_of p)) ≡ false
      → filter is_pending (rows_of (publish_all env ms p))
        ≡ filter (left_pending (map (λ m. m.message_id) ms)) (rows_of p)
  unfolding publish_all is_member
  publish_all-pending [] p distinct =
      filter-ext is_pending (left_pending []) (rows_of p) λ x. sym (and-true (is_pending x))
  publish_all-pending (m ∷ ms) p distinct =
      let ids = map (λ n. n.message_id) ms in
      let (same_ids, change) = mark-rows m (send env m p.world) p distinct in
      publish_all-pending ms (mark env m (send env m p.world) p)
        (ap has_duplicate same_ids ∙ distinct)
      ∙ change (left_pending ids) (λ x done. rw done)
      ∙ filter-ext _ (left_pending (m.message_id ∷ ids)) (rows_of p)
          λ x. left_pending-cons m.message_id ids x

  -- the loop changes loaded rows only
  mark-session :
      (m : OutboxMessage) (r : Result (Unit {0}) × World) (p : Publishing)
      → ((mark env m r p).session.added ≡ p.session.added)
        × ((mark env m r p).session.committed ≡ p.session.committed)
  unfolding mark_published mark_failed
  mark-session m (ok _, w) p = (refl, refl)
  mark-session m (err e, w) p = (refl, refl)

  pub publish_all-session :
      (ms : List OutboxMessage) (p : Publishing)
      → ((publish_all env ms p).session.added ≡ p.session.added)
        × ((publish_all env ms p).session.committed ≡ p.session.committed)
  unfolding publish_all
  publish_all-session [] p = (refl, refl)
  publish_all-session (m ∷ ms) p =
      let (added, committed) = publish_all-session ms (mark env m (send env m p.world) p) in
      let (added', committed') = mark-session m (send env m p.world) p in
      (added ∙ added', committed ∙ committed')

-- the loop's variables when it starts
abbrev pub started : World → Publishing
started w = record { world = w; session = open_session w.tables; published = 0 }

abbrev pub finished : Env → List OutboxMessage → World → Publishing
finished env ms w = publish_all env ms (started w)

module _ (env : Env) (batch_size : ℕ) (w : World) {ms : List OutboxMessage} where
  pub publish_outbox-eq :
      to_outboxes (pending_rows batch_size w.tables.outbox_messages) ≡ ok ms
      → publish_outbox env batch_size w
        ≡ back_in (finished env ms w).world (
            closed (
              returned
                (finished env ms w).published
                (commit env.database (finished env ms w).session)))
  unfolding publish_outbox list_pending
  publish_outbox-eq listed = rw listed

  -- what `commit` makes of the finished loop
  pub publish_outbox-cases :
      to_outboxes (pending_rows batch_size w.tables.outbox_messages) ≡ ok ms
      → (publish_outbox env batch_size w ≡ (
        ok (finished env ms w).published,
        record (finished env ms w).world {
          tables = with_rows (finished env ms w).session.loaded (finished env ms w).session.added;
        },
      ))
        ⊎ ((e : Error) × (publish_outbox env batch_size w ≡ (
          err e,
          record (finished env ms w).world { tables = (finished env ms w).session.committed },
        )))
  publish_outbox-cases listed = elim (commit-cases env.database (finished env ms w).session) [
    | inl stored ↦ inl (rw (publish_outbox-eq listed, stored))
    | inr (e, raised) ↦ inr (e, rw (publish_outbox-eq listed, raised))
  ]

  -- Publishing hands the sink the messages that `list_pending` reads, each once and in that order,
  -- whatever the sink answers and whether or not the transaction commits.
  pub publish_outbox-deliveries :
      to_outboxes (pending_rows batch_size w.tables.outbox_messages) ≡ ok ms
      → (publish_outbox env batch_size w).1.deliveries ≡ w.deliveries ++ map delivery_of ms
  publish_outbox-deliveries listed = elim (publish_outbox-cases listed) [
    | inl stored ↦ rw stored (publish_all-deliveries env ms (started w))
    | inr (e, raised) ↦ rw raised (publish_all-deliveries env ms (started w))
  ]

  -- When publishing returns, and no two messages have the same id, the messages still pending are
  -- the ones that were pending before and were not handed to the sink: none that the sink refused
  -- is pending again.
  pub publish_outbox-pending :
      {n : ℕ}
      → to_outboxes (pending_rows batch_size w.tables.outbox_messages) ≡ ok ms
      → has_duplicate (map (λ m. m.message_id) w.tables.outbox_messages) ≡ false
      → (publish_outbox env batch_size w).0 ≡ ok n
      → filter is_pending (publish_outbox env batch_size w).1.tables.outbox_messages
        ≡ filter (left_pending (map (λ m. m.message_id) ms)) w.tables.outbox_messages
  publish_outbox-pending listed distinct done = elim (publish_outbox-cases listed) [
    | inl stored ↦
        rw (stored, (publish_all-session env ms (started w)).0, append-nil)
          (publish_all-pending env ms (started w) distinct)
    | inr (e, raised) ↦ cc
  ]

  -- When publishing raises after its messages were read, the tables stay as they were: what the sink
  -- has received is still pending.
  publish_outbox_raises :
      {e : Error}
      → to_outboxes (pending_rows batch_size w.tables.outbox_messages) ≡ ok ms
      → (publish_outbox env batch_size w).0 ≡ err e
      → (publish_outbox env batch_size w).1.tables ≡ w.tables
  publish_outbox_raises listed raised = elim (publish_outbox-cases listed) [
    | inl stored ↦ cc
    | inr (e, undone) ↦ rw undone (publish_all-session env ms (started w)).1
  ]
