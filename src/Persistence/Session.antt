-- ===== src/Persistence/Session.antt =====
-- SQLAlchemy's session as build_session_factory makes it (autoflush off), and
-- infrastructure/unit_of_work/sqlalchemy_uow.py.
--
-- Queries and `session.get` see the stored rows with the changes made to loaded ones, and not the
-- rows that were added and not flushed. A commit binds the JSON values, checks the primary keys
-- and then asks the database, which may reject it for reasons of its own.
pub mod Transactions
pub mod Keys
use rules_enrichment_daemon.Prelude.{
  String, ◌≡◌, refl, Bool, true, false, not, ◌&&◌, ◌||◌, Option, none, some, List, [], ◌∷◌, ◌++◌,
  map, if◌then◌else◌,
}
use rules_enrichment_daemon.Domain.Errors.{Error, Result, ok, err, integrity_error, statement_error}
use rules_enrichment_daemon.Domain.Json.{Fields, fields_serializable}
use rules_enrichment_daemon.Domain.Order.{is_member}
use rules_enrichment_daemon.Exec.{Exec}
use rules_enrichment_daemon.Persistence.Models.{Tables, no_rows, with_rows}

pub record Session : Type 0 where
  -- what other sessions see
  pub committed : Tables
  -- the stored rows, with the changes made to loaded ones
  pub loaded : Tables
  -- `session.add`, not flushed
  pub added : Tables
  -- the JSON values that the next flush binds
  pub bound : List Fields

abbrev pub open_session : Tables → Session
open_session db = record { committed = db; loaded = db; added = no_rows; bound = [] }

unfoldable pub all_serializable : List Fields → Bool
all_serializable [] = true
all_serializable (fs ∷ rest) = fields_serializable fs && all_serializable rest

-- some key occurs twice
unfoldable pub has_duplicate : List String → Bool
has_duplicate [] = false
has_duplicate (k ∷ ks) = is_member k ks || has_duplicate ks

-- the primary keys that the program chooses itself
unfoldable pub violates_keys : Tables → Bool
violates_keys t =
    has_duplicate (map (λ r. r.rule_id) t.enrichment_rules)
    || has_duplicate (map (λ p. p.order_id) t.processed_orders)
    || has_duplicate (map (λ m. m.message_id) t.outbox_messages)

-- the database's own answer to a commit that takes the tables from the first to the second
abbrev pub Database : Type 0
Database = Tables → Tables → Option Error

abbrev settle : Option Error → Tables → Session → Result (Unit {0}) × Session
settle none t s = (ok tt, open_session t)
settle (some e) t s = (err e, s)

-- `commit`
unfoldable pub commit : Database → Exec Session (Unit {0})
commit db s =
    let t = with_rows s.loaded s.added in
    if not (all_serializable s.bound)
    then (err statement_error, s)
    else if violates_keys t
    then (err integrity_error, s)
    else settle (db s.committed t) t s

abbrev pub closed : {A : Type 0} → Result A × Session → Result A × Tables
closed (r, s) = (r, s.committed)

-- `with uow: body`: a new session, and at the end nothing stays but what was committed
unfoldable pub with_uow : {A : Type 0} → Exec Session A → Tables → Result A × Tables
with_uow body db = closed (body (open_session db))
