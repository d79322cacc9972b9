-- ===== src/Audit/Delivered/Listed.antt =====
-- The messages that the publisher reads, and their rows.
use rules_enrichment_daemon.Prelude.{
  ℕ, ◌≡◌, refl, ◌∙◌, sym, List, [], ◌∷◌, filter, All, All-map, All-filter, inl, inr,
}
use mathlib.Core.Path.{subst}
use rules_enrichment_daemon.Prelude.Any.{Any, Any-map}
use rules_enrichment_daemon.Prelude.Sort.{All-sort_by}
use rules_enrichment_daemon.Domain.Errors.{ok, err, Result-cases}
use rules_enrichment_daemon.Domain.Datetime.{instant}
use rules_enrichment_daemon.Domain.Processing.{OutboxStatus, OutboxMessage}
use rules_enrichment_daemon.Persistence.Models.{OutboxMessageModel}
use rules_enrichment_daemon.Persistence.Mappers.{to_outbox, outbox_status}
use rules_enrichment_daemon.Persistence.Repositories.{is_pending, to_outboxes, pending_rows}
use rules_enrichment_daemon.Application.PublishOutbox.Others.{All-take}
use rules_enrichment_daemon.Audit.Delivered.{IsRowOf}

-- every message has its row
abbrev pub HaveRows : List OutboxMessage → List OutboxMessageModel → Type 0
HaveRows ms rows = All (λ m. Any (IsRowOf m) rows) ms

Any-self : {A : Type 0} (xs : List A) → All (λ x. Any (λ y. y ≡ x) xs) xs
Any-self [] = tt
Any-self (x ∷ xs) = (inl refl, All-map _ _ (λ y found. inr found) xs (Any-self xs))

abbrev message_of : OutboxStatus → OutboxMessageModel → OutboxMessage
message_of status row = record {
  message_id = row.message_id;
  aggregate_type = row.aggregate_type;
  aggregate_id = row.aggregate_id;
  event_type = row.event_type;
  payload_json = row.payload_json;
  status = status;
  created_at = row.created_at;
  published_at = row.published_at;
}

to_outbox-IsRowOf :
    (row : OutboxMessageModel) {m : OutboxMessage} → to_outbox row ≡ ok m → IsRowOf m row
unfolding to_outbox
to_outbox-IsRowOf row {m} read = elim (Result-cases (outbox_status row.status)) [
  | inr (e, unknown) ↦
      let failed : to_outbox row ≡ err e = rw unknown refl in
      let bad : err e ≡ ok m = sym failed ∙ read in absurd cc
  | inl (status, known) ↦
      let built : to_outbox row ≡ ok (message_of status row) = rw known refl in
      let done : ok (message_of status row) ≡ ok m = sym built ∙ read in
      let same : message_of status row ≡ m = cc in
      subst (λ n. IsRowOf n row) same
        (record { message_id = refl; event_type = refl; payload_json = refl })
]

listed-HaveRows :
    (all rows : List OutboxMessageModel) {ms : List OutboxMessage}
    → All (λ row. Any (λ y. y ≡ row) all) rows
    → to_outboxes rows ≡ ok ms
    → HaveRows ms all
unfolding to_outboxes
listed-HaveRows all [] {ms} inside read =
    let empty : [] ≡ ms = cc in subst (λ x. HaveRows x all) empty tt
listed-HaveRows all (row ∷ rows) {ms} inside read = elim (Result-cases (to_outbox row)) [
  | inr (e, unread) ↦
      let failed : to_outboxes (row ∷ rows) ≡ err e = rw unread refl in
      let bad : err e ≡ ok ms = sym failed ∙ read in absurd cc
  | inl (m, is) ↦ elim (Result-cases (to_outboxes rows)) [
    | inr (e, unread) ↦
        let failed : to_outboxes (row ∷ rows) ≡ err e = rw (is, unread) refl in
        let bad : err e ≡ ok ms = sym failed ∙ read in absurd cc
    | inl (rest, are) ↦
        let built : to_outboxes (row ∷ rows) ≡ ok (m ∷ rest) = rw (is, are) refl in
        let done : ok (m ∷ rest) ≡ ok ms = sym built ∙ read in
        let same : m ∷ rest ≡ ms = cc in
        let found : Any (IsRowOf m) all =
          Any-map _ _ (λ y e. subst (IsRowOf m) (sym e) (to_outbox-IsRowOf row is)) all inside.0 in
        subst (λ x. HaveRows x all) same (found, listed-HaveRows all rows inside.1 are)
  ]
]

pub pending-HaveRows :
    (n : ℕ) (rows : List OutboxMessageModel) {ms : List OutboxMessage}
    → to_outboxes (pending_rows n rows) ≡ ok ms
    → HaveRows ms rows
unfolding pending_rows
pending-HaveRows n rows read =
    listed-HaveRows rows (pending_rows n rows)
      (All-take _ n _ (
        All-sort_by (λ m. instant m.created_at) _ (filter is_pending rows)
          (All-filter is_pending _ rows (Any-self rows))))
      read
