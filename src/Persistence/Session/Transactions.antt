-- ===== src/Persistence/Session/Transactions.antt =====
-- A commit takes all rows of a session or none, and a block that raises before its commit leaves
-- the tables alone.
use rules_enrichment_daemon.Prelude.{
  ◌≡◌, refl, false, Option, none, some, ◌⊎◌, inl, inr, Bool-cases,
}
use rules_enrichment_daemon.Domain.Errors.{Error, ok, err, integrity_error, statement_error}
use rules_enrichment_daemon.Persistence.Models.{Tables, with_rows}
use rules_enrichment_daemon.Persistence.Session.{
  Session, Database, open_session, all_serializable, violates_keys, settle, commit,
}

abbrev pub after_commit : Session → Session
after_commit s = open_session (with_rows s.loaded s.added)

settle-cases :
    (x : Option Error) (t : Tables) (s : Session)
    → (settle x t s ≡ (ok tt, open_session t)) ⊎ ((e : Error) × (settle x t s ≡ (err e, s)))
settle-cases none t s = inl refl
settle-cases (some e) t s = inr (e, refl)

-- A commit stores the changed and the added rows together, or raises and stores nothing.
pub commit-cases :
    (db : Database) (s : Session)
    → (commit db s ≡ (ok tt, after_commit s)) ⊎ ((e : Error) × (commit db s ≡ (err e, s)))
unfolding commit
commit-cases db s = elim (Bool-cases (all_serializable s.bound)) [
  | inr bad ↦ inr (statement_error, rw bad)
  | inl fine ↦ elim (Bool-cases (violates_keys (with_rows s.loaded s.added))) [
    | inl taken ↦ inr (integrity_error, rw (fine, taken))
    | inr free ↦
        rw (fine, free)
          (settle-cases (db s.committed (with_rows s.loaded s.added)) (with_rows s.loaded s.added)
            s)
  ]
]

-- The same, with the keys of what it stores.
pub commit-cases_keys :
    (db : Database) (s : Session)
    → ((commit db s ≡ (ok tt, after_commit s))
        × (violates_keys (with_rows s.loaded s.added) ≡ false))
      ⊎ ((e : Error) × (commit db s ≡ (err e, s)))
commit-cases_keys db s = elim (Bool-cases (violates_keys (with_rows s.loaded s.added))) [
  | inr free ↦ elim (commit-cases db s) [
    | inl stored ↦ inl (stored, free)
    | inr (e, raised) ↦ inr (e, raised)
  ]
  | inl taken ↦ inr (
      unfold commit in
      elim (Bool-cases (all_serializable s.bound)) [
        | inr bad ↦ (statement_error, rw bad refl)
        | inl fine ↦ (integrity_error, rw (fine, taken) refl)
      ])
]

-- A value without JSON form among those to bind makes the commit raise.
pub commit-unserializable :
    (db : Database) (s : Session)
    → all_serializable s.bound ≡ false
    → commit db s ≡ (err statement_error, s)
unfolding commit
commit-unserializable db s h = rw h
