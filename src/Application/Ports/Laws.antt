-- ===== src/Application/Ports/Laws.antt =====
-- What the use cases rely on: a unit of work is a transaction on two maps, from orders to what is
-- stored of them and from orders to the highest number of an attempt.
use rules_enrichment_daemon.Prelude.{
  ℕ, ◌+◌, max, String, Bool, ◌≡◌, Option, some, ◌⊎◌, str_eq, if◌then◌else◌,
}
use rules_enrichment_daemon.Domain.Errors.{Error, ok, err}
use rules_enrichment_daemon.Domain.Processing.{ProcessedOrder, ProcessingAttempt, OutboxMessage}
use rules_enrichment_daemon.Application.Ports.{UnitOfWork}

pub record Ledger : Type 0 where
  pub processed : String → Option ProcessedOrder
  -- 0 where there is no attempt
  pub attempts : String → ℕ

abbrev pub with_processed : ProcessedOrder → Ledger → Ledger
with_processed p l = record l {
  processed = λ id. if str_eq p.order_id id then some p else l.processed id;
}

abbrev pub with_attempt : ProcessingAttempt → Ledger → Ledger
with_attempt a l = record l {
  attempts =
      λ id. if str_eq a.order_id id then max (l.attempts id) a.attempt_number else l.attempts id;
}

pub record IsLawful (u : UnitOfWork) : Type 0 where
  pub view : u.Store → Ledger
  -- what a commit of the session would leave
  pub pending : u.Session → Ledger
  -- what the session leaves if it ends now
  pub base : u.Session → u.Store
  pub pending-enter : (t : u.Store) → pending (u.enter t) ≡ view t
  pub base-enter : (t : u.Store) → base (u.enter t) ≡ t
  pub exit-base : (raised : Bool) (s : u.Session) → u.exit raised s ≡ base s
  pub get-enter :
      (id : String) (t : u.Store)
      → u.processed_orders.get_by_order_id id (u.enter t) ≡ (ok ((view t).processed id), u.enter t)
  pub next-enter :
      (id : String) (t : u.Store)
      → u.attempts.get_next_attempt_number id (u.enter t)
        ≡ (ok ((view t).attempts id + 1), u.enter t)
  pub save_attempt :
      (a : ProcessingAttempt) (s : u.Session)
      → (s' : u.Session) × (u.attempts.save a s ≡ (ok tt, s'))
        × (pending s' ≡ with_attempt a (pending s))
        × (base s' ≡ base s)
  pub save_processed :
      (p : ProcessedOrder) (s : u.Session)
      → (s' : u.Session) × (u.processed_orders.save p s ≡ (ok tt, s'))
        × (pending s' ≡ with_processed p (pending s))
        × (base s' ≡ base s)
  pub enqueue :
      (m : OutboxMessage) (s : u.Session)
      → (s' : u.Session) × (u.outbox.enqueue m s ≡ (ok tt, s'))
        × (pending s' ≡ pending s)
        × (base s' ≡ base s)
  -- a commit takes all or nothing
  pub commit :
      (s : u.Session)
      → ((s' : u.Session) × (u.commit s ≡ (ok tt, s')) × (view (base s') ≡ pending s))
        ⊎ ((e : Error) × (s' : u.Session) × (u.commit s ≡ (err e, s')) × (base s' ≡ base s))
