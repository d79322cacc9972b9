-- ===== src/Persistence/UnitOfWork/Lawful.antt =====
-- The unit of work over SQLAlchemy and the laws that the use cases rely on.
use mathlib.Core.List.{append_assoc, append-nil}
use mathlib.Core.Option
use rules_enrichment_daemon.Prelude.{
  String, ◌≡◌, refl, ◌∙◌, ap, sym, fun_ext, Bool, true, false, none, some, ◌++◌, map, inl, inr,
  Bool-cases, Option-cases, arith, str_eq, eq_iff,
}
use rules_enrichment_daemon.Prelude.Distinct.{AllDistinct}
use rules_enrichment_daemon.Domain.Json.Dict.{or_else}
use rules_enrichment_daemon.Domain.Processing.{ProcessedOrder, ProcessingAttempt}
use rules_enrichment_daemon.Persistence.Models.{Tables, ProcessedOrderModel, with_rows}
use rules_enrichment_daemon.Persistence.Mappers.{to_processed, processed_row, attempt_row}
use rules_enrichment_daemon.Persistence.Session.{
  Session, Database, open_session, has_duplicate, violates_keys,
}
use rules_enrichment_daemon.Persistence.Session.Keys.{or_parts, has_duplicate-AllDistinct}
use rules_enrichment_daemon.Persistence.Session.Transactions.{after_commit, commit-cases_keys}
use rules_enrichment_daemon.Persistence.Repositories.{
  find_row, change_row, max_attempt, get_next_attempt_number, save_attempt, get_by_order_id,
  save_processed, enqueue,
}
use rules_enrichment_daemon.Persistence.Repositories.Rows.{
  find_row-change_row, find_row-change_row_ne, max_attempt-append,
}
use rules_enrichment_daemon.Persistence.UnitOfWork.{exit, sql_unit_of_work}
use rules_enrichment_daemon.Persistence.UnitOfWork.Lookups.{
  find_last, find_last-append, find_row-parts,
}
use rules_enrichment_daemon.Application.Ports.Laws.{Ledger, with_processed, with_attempt, IsLawful}

abbrev key : ProcessedOrderModel → String
key p = p.order_id

abbrev ledger_of : Tables → Ledger
ledger_of t = record {
  processed = λ id. Option.map to_processed (find_row key id t.processed_orders);
  attempts = λ id. max_attempt id t.processing_attempts;
}

abbrev pending_of : Session → Ledger
pending_of s = record {
  processed = λ id. Option.map to_processed (
      or_else (find_row key id s.loaded.processed_orders)
        (find_last key id s.added.processed_orders));
  attempts = λ id. max_attempt id (s.loaded.processing_attempts ++ s.added.processing_attempts);
}

same_ledger :
    (a b : Ledger)
    → ((id : String) → a.processed id ≡ b.processed id)
    → ((id : String) → a.attempts id ≡ b.attempts id)
    → a ≡ b
same_ledger a b p q = λ i. record { processed = fun_ext p i; attempts = fun_ext q i }

pending-open : (t : Tables) → pending_of (open_session t) ≡ ledger_of t
pending-open t =
    same_ledger _ _
      (λ id. elim (Option-cases (find_row key id t.processed_orders)) [
        | inl absent ↦ rw absent refl
        | inr (p, there) ↦ rw there refl
      ])
      (λ id. ap (max_attempt id) (append-nil t.processing_attempts))

save_attempt-pending :
    (a : ProcessingAttempt) (s : Session)
    → pending_of (save_attempt a s).1 ≡ with_attempt a (pending_of s)
unfolding save_attempt attempt_row
save_attempt-pending a s =
    same_ledger _ _ (λ id. refl)
      (λ id.
        ap (max_attempt id)
          (sym (append_assoc s.loaded.processing_attempts s.added.processing_attempts _))
        ∙ max_attempt-append id (s.loaded.processing_attempts ++ s.added.processing_attempts)
            (attempt_row a)
        ∙ ground arith)

save_processed-pending :
    (p : ProcessedOrder) (s : Session)
    → pending_of (save_processed p s).1 ≡ with_processed p (pending_of s)
unfolding save_processed processed_row to_processed
save_processed-pending p s =
    let rows = s.loaded.processed_orders in
    let new = s.added.processed_orders in
    let row = processed_row p in
    elim (Option-cases (find_row key p.order_id rows)) [
      | inl absent ↦ rw absent (
          same_ledger _ _
            (λ id. elim (Bool-cases (str_eq p.order_id id)) [
              | inl same ↦
                  let gone : find_row key id rows ≡ none =
                    ap (λ k. find_row key k rows) (sym (ground (arith, eq_iff p.order_id id)))
                    ∙ absent in
                  rw (gone, find_last-append key id new row, same) refl
              | inr other ↦ rw (find_last-append key id new row, other) refl
            ])
            (λ id. refl))
      | inr (old, there) ↦ rw there (
          same_ledger _ _
            (λ id. elim (Bool-cases (str_eq p.order_id id)) [
              | inl same ↦
                  let own : p.order_id ≡ id = ground (arith, eq_iff p.order_id id) in
                  let found : find_row key id (change_row key p.order_id (λ _. row) rows)
                      ≡ some row =
                    ap (λ k. find_row key k (change_row key p.order_id (λ _. row) rows)) (sym own)
                    ∙ find_row-change_row key p.order_id (λ _. row) rows refl there in
                  rw (found, same) refl
              | inr other ↦
                  rw
                    (
                      find_row-change_row_ne key id p.order_id (λ _. row) rows (λ x e. refl)
                          (λ same. ground (arith, eq_iff p.order_id id)),
                      other,
                    )
                    refl
            ])
            (λ id. refl))
    ]

save_processed-committed :
    (p : ProcessedOrder) (s : Session) → (save_processed p s).1.committed ≡ s.committed
unfolding save_processed
save_processed-committed p s =
    elim (Option-cases (find_row key p.order_id s.loaded.processed_orders)) [
      | inl absent ↦ rw absent refl
      | inr (old, there) ↦ rw there refl
    ]

-- what a commit stores, with its keys distinct
committed_ledger :
    (s : Session)
    → violates_keys (with_rows s.loaded s.added) ≡ false
    → ledger_of (with_rows s.loaded s.added) ≡ pending_of s
unfolding violates_keys
committed_ledger s free =
    let rows = s.loaded.processed_orders ++ s.added.processed_orders in
    let stored = with_rows s.loaded s.added in
    let first_two =
      (or_parts _ (has_duplicate (map (λ m. m.message_id) stored.outbox_messages)) free).0 in
    let apart : AllDistinct key rows =
      has_duplicate-AllDistinct key rows (or_parts _ (has_duplicate (map key rows)) first_two).1 in
    same_ledger _ _
      (λ id.
        ap (Option.map to_processed)
          (find_row-parts key id s.loaded.processed_orders s.added.processed_orders apart))
      (λ id. refl)

exit-committed : (raised : Bool) (s : Session) → exit raised s ≡ s.committed
exit-committed true s = refl
exit-committed false s = refl

-- The SQLAlchemy unit of work is lawful, whatever the database answers to commits: a new session
-- reads what is stored, saving an attempt or a processed order adds it to what a commit will leave,
-- enqueueing adds neither, a commit leaves all of it or raises and leaves nothing, and what is not
-- committed is lost at the exit.
pub sql_unit_of_work-IsLawful : (db : Database) → IsLawful (sql_unit_of_work db)
sql_unit_of_work-IsLawful db = record {
  view = ledger_of;
  pending = pending_of;
  base = λ s. s.committed;
  pending-enter = pending-open;
  base-enter = λ t. refl;
  exit-base = exit-committed;
  get-enter = λ id t. unfold get_by_order_id in refl;
  next-enter = λ id t. unfold get_next_attempt_number in refl;
  save_attempt = λ a s. (
    (save_attempt a s).1,
    unfold save_attempt in refl,
    save_attempt-pending a s,
    unfold save_attempt in refl,
  );
  save_processed = λ p s. (
    (save_processed p s).1,
    unfold save_processed in refl,
    save_processed-pending p s,
    save_processed-committed p s,
  );
  enqueue = λ m s.
      ((enqueue m s).1, unfold enqueue in refl, unfold enqueue in refl, unfold enqueue in refl);
  commit = λ s. elim (commit-cases_keys db s) [
    | inl (stored, free) ↦ inl (after_commit s, stored, committed_ledger s free)
    | inr (e, raised) ↦ inr (e, s, raised, refl)
  ];
}
