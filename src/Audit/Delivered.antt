-- ===== src/Audit/Delivered.antt =====
-- use_cases/publish_outbox.py and outbox_repository_sqlalchemy.py: the marks of the rows of the
-- outbox, and the list of deliveries.

pub mod Listed
pub mod Publishing
pub mod Reached
use rules_enrichment_daemon.Prelude.{
  ℕ, String, ◌≡◌, ◌≢◌, refl, ◌∙◌, ap, sym, Bool, true, false, List, [], ◌∷◌, ◌++◌, map, All,
  All-map, arith, str_eq, eq_iff, Bool-cases, inl, inr,
}
use rules_enrichment_daemon.Prelude.Any.{Any, Any-append, Any-append_last, Any-map}
use rules_enrichment_daemon.Prelude.Distinct.{AllDistinct}
use rules_enrichment_daemon.Domain.Processing.{OutboxMessage}
use rules_enrichment_daemon.Persistence.Models.{Tables, OutboxMessageModel}
use rules_enrichment_daemon.Persistence.Session.{has_duplicate}
use rules_enrichment_daemon.Persistence.Repositories.{change_row, as_published, as_failed}
use rules_enrichment_daemon.Application.Environment.{Delivery}

-- the sink was handed what the message holds
pub record Delivers (m : OutboxMessageModel) (d : Delivery) : Type 0 where
  pub event_type : d.event_type ≡ m.event_type
  pub payload : d.payload ≡ m.payload_json

-- a message that is marked as published was handed to the sink
abbrev pub WasSent : List Delivery → OutboxMessageModel → Type 0
WasSent ds m = m.status ≡ "PUBLISHED" → Any (Delivers m) ds

pub record IsDelivered (t : Tables) (ds : List Delivery) : Type 0 where
  pub distinct : has_duplicate (map (λ m. m.message_id) t.outbox_messages) ≡ false
  pub delivered : All (WasSent ds) t.outbox_messages

-- the row is that of the message
pub record IsRowOf (m : OutboxMessage) (row : OutboxMessageModel) : Type 0 where
  pub message_id : row.message_id ≡ m.message_id
  pub event_type : row.event_type ≡ m.event_type
  pub payload_json : row.payload_json ≡ m.payload_json

pub WasSent-append :
    (ds more : List Delivery) (rows : List OutboxMessageModel)
    → All (WasSent ds) rows
    → All (WasSent (ds ++ more)) rows
WasSent-append ds more rows h =
    All-map _ _ (λ m sent done. Any-append (Delivers m) ds more (sent done)) rows h

module _ {A : Type 0} (id : A → String) (key : String) where
  -- among distinct rows, what holds of some row of a key holds of every row of it
  pub All-key :
      (P : A → Type 0) (rows : List A)
      → AllDistinct id rows
      → Any (λ x. (id x ≡ key) × P x) rows
      → All (λ x. id x ≡ key → P x) rows
  All-key P [] apart h = tt
  All-key P (x ∷ xs) apart (inl (own, holds)) =
      (λ e. holds, All-map _ _ (λ y differs e. absurd (differs (own ∙ sym e))) xs apart.0)
  All-key P (x ∷ xs) apart (inr later) =
      (λ e. absurd (key_elsewhere xs e apart.0 later), All-key P xs apart.1 later)
    where
      key_elsewhere :
          (ys : List A)
          → id x ≡ key
          → All (λ y. id x ≢ id y) ys
          → Any (λ y. (id y ≡ key) × P y) ys
          → ⊥
      key_elsewhere [] e differs found = found
      key_elsewhere (y ∷ ys) e differs (inl (own, holds)) = differs.0 (e ∙ sym own)
      key_elsewhere (y ∷ ys) e differs (inr more) = key_elsewhere ys e differs.1 more

  pub All-change_row_at :
      (Q : A → Type 0) (change : A → A) (rows : List A)
      → All (λ x. id x ≡ key → Q (change x)) rows
      → All Q rows
      → All Q (change_row id key change rows)
  unfolding change_row
  All-change_row_at Q change [] changed kept = tt
  All-change_row_at Q change (x ∷ xs) changed kept = elim (Bool-cases (str_eq (id x) key)) [
    | inl same ↦ rw same (changed.0 (ground (arith, eq_iff (id x) key)), kept.1)
    | inr other ↦ rw other (kept.0, All-change_row_at Q change xs changed.1 kept.1)
  ]
