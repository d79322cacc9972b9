-- ===== src/Tests/Database.antt =====
-- A database's schema with the names of its tables and indexes, as an instance of the operations.
use mathlib.Core.Path.{subst}
use rules_enrichment_daemon.Prelude.{
  String, Bool, true, false, not, ◌||◌, ◌≡◌, refl, str_eq, eq_iff, eq_refl, arith, List, [], ◌∷◌,
  All, All-map, filter, filter_of_All, Bool-cases, inl, inr, if◌then◌else◌,
}
use rules_enrichment_daemon.Domain.Errors.{Error, Result, ok, err, operational_error}
use rules_enrichment_daemon.Migrations.Schema.{
  Table, Index, Operation, create_table, create_index, drop_index, drop_table, run_all, upgrade,
  downgrade, column, varchar,
}
use rules_enrichment_daemon.Migrations.Schema.Undone.{undo, creates, downgrade-upgrade_schema}

pub record Schema : Type 0 where
  pub tables : List Table
  pub indexes : List Index

abbrev pub has_table : String → List Table → Bool
has_table n [] = false
has_table n (t ∷ ts) = str_eq t.name n || has_table n ts

abbrev pub has_index : String → List Index → Bool
has_index n [] = false
has_index n (i ∷ is) = str_eq i.name n || has_index n is

abbrev pub without_table : String → List Table → List Table
without_table n [] = []
without_table n (t ∷ ts) = if str_eq t.name n then ts else t ∷ without_table n ts

abbrev pub without_index : String → List Index → List Index
without_index n [] = []
without_index n (i ∷ is) = if str_eq i.name n then is else i ∷ without_index n is

-- PostgreSQL: names are taken once, an index needs its table, and a table takes its indexes along
unfoldable pub apply : Operation → Schema → Result Schema
apply (create_table t) s =
    if has_table t.name s.tables
    then err (operational_error "the table exists")
    else ok (record { tables = t ∷ s.tables; indexes = s.indexes })
apply (create_index i) s =
    if has_index i.name s.indexes || not (has_table i.table s.tables)
    then err (operational_error "the index exists or its table does not")
    else ok (record { tables = s.tables; indexes = i ∷ s.indexes })
apply (drop_index n table) s =
    if has_index n s.indexes
    then ok (record { tables = s.tables; indexes = without_index n s.indexes })
    else err (operational_error "the index does not exist")
apply (drop_table n) s =
    if has_table n s.tables
    then ok (record {
      tables = without_table n s.tables;
      indexes = filter (λ i. not (str_eq i.table n)) s.indexes;
    })
    else err (operational_error "the table does not exist")

-- every index is on a table that is there
abbrev pub IsConsistent : Schema → Type 0
IsConsistent s = All (λ i. has_table i.table s.tables ≡ true) s.indexes

others_keep :
    (n : String) (s : Schema)
    → IsConsistent s
    → has_table n s.tables ≡ false
    → filter (λ i. not (str_eq i.table n)) s.indexes ≡ s.indexes
others_keep n s consistent fresh =
    filter_of_All (λ i. not (str_eq i.table n)) s.indexes
      (All-map _ _ (λ i there. other i.table there) s.indexes consistent)
  where
    other : (m : String) → has_table m s.tables ≡ true → not (str_eq m n) ≡ true
    other m there = elim (Bool-cases (str_eq m n)) [
      | inl same ↦ ground (arith, eq_iff m n, there, fresh)
      | inr differs ↦ rw differs refl
    ]

-- a creation that went well, on either side of its test
taken :
    {b : Bool} (e : Error) {new s' : Schema}
    → (if b then err e else ok new) ≡ ok s'
    → (b ≡ false) × (new ≡ s')
taken {b = true} e h = cc
taken {b = false} e h = (refl, cc)

-- a creation is undone, and keeps every index on a table
abbrev IsUndone : Operation → Schema → Schema → Type 0
IsUndone op s s' = (apply (undo op) s' ≡ ok s) × IsConsistent s'

create_table-IsUndone :
    (t : Table) (s : Schema)
    → IsConsistent s
    → has_table t.name s.tables ≡ false
    → IsUndone (create_table t) s (record { tables = t ∷ s.tables; indexes = s.indexes })
unfolding apply
create_table-IsUndone t s consistent fresh = (
  rw (eq_refl t.name, others_keep t.name s consistent fresh) refl,
  All-map _ _ (λ i there. ground (arith, there)) s.indexes consistent,
)

create_index-IsUndone :
    (i : Index) (s : Schema)
    → IsConsistent s
    → has_table i.table s.tables ≡ true
    → IsUndone (create_index i) s (record { tables = s.tables; indexes = i ∷ s.indexes })
unfolding apply
create_index-IsUndone i s consistent there = (rw (eq_refl i.name) refl, (there, consistent))

undoes :
    (op : Operation) (s s' : Schema)
    → creates op ≡ true
    → IsConsistent s
    → apply op s ≡ ok s'
    → IsUndone op s s'
unfolding apply
undoes (create_table t) s s' created consistent done =
    let (fresh, same) = taken _ done in
    subst (IsUndone (create_table t) s) same (create_table-IsUndone t s consistent fresh)
undoes (create_index i) s s' created consistent done =
    let (free, same) = taken _ done in
    subst (IsUndone (create_index i) s) same
      (create_index-IsUndone i s consistent (ground (arith, free)))
undoes (drop_index n table) s s' created consistent done = cc
undoes (drop_table n) s s' created consistent done = cc

-- the table in which Alembic keeps the revision
abbrev bare_schema : Schema
bare_schema = record {
  tables =
      record {
        name = "alembic_version";
        columns = column "version_num" (varchar 32) false ∷ [];
        primary_key = "version_num";
      }
      ∷ [];
  indexes = [];
}

abbrev schema_or : Schema → Result Schema → Schema
schema_or d (ok s) = s
schema_or d (err e) = d

abbrev full_schema : Schema
full_schema = schema_or bare_schema (run_all apply upgrade bare_schema)

upgraded : run_all apply upgrade bare_schema ≡ ok full_schema
unfolding run_all apply
upgraded = refl

bare_again : run_all apply downgrade full_schema ≡ ok bare_schema
bare_again = downgrade-upgrade_schema apply IsConsistent bare_schema full_schema undoes tt upgraded
