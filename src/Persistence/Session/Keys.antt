-- ===== src/Persistence/Session/Keys.antt =====
-- Primary keys: the test on texts says that no two rows have the same key, and a commit keeps it.
use rules_enrichment_daemon.Prelude.{
  String, ◌≡◌, refl, ◌≢◌, Bool, true, false, ◌||◌, Option, none, some, List, [], ◌∷◌, map, All,
  arith, str_eq, eq_iff, Bool-cases, inl, inr,
}
use rules_enrichment_daemon.Prelude.Distinct.{AllDistinct}
use rules_enrichment_daemon.Domain.Errors.{Error}
use rules_enrichment_daemon.Domain.Order.{is_member}
use rules_enrichment_daemon.Persistence.Models.{Tables, with_rows}
use rules_enrichment_daemon.Persistence.Session.{
  Session, Database, all_serializable, has_duplicate, violates_keys, settle, commit,
}

pub or_parts : (a b : Bool) → (a || b) ≡ false → (a ≡ false) × (b ≡ false)
or_parts true b h = cc
or_parts false b h = (refl, h)

module _ {A : Type 0} (id : A → String) where
  -- a text that is no key of the rows
  pub is_member-ne :
      (k : String) (xs : List A) → is_member k (map id xs) ≡ false → All (λ x. k ≢ id x) xs
  unfolding is_member
  is_member-ne k [] h = tt
  is_member-ne k (x ∷ xs) h =
      let (differs, rest) = or_parts (str_eq (id x) k) (is_member k (map id xs)) h in
      (ground (arith, eq_iff (id x) k), is_member-ne k xs rest)

  pub has_duplicate-AllDistinct :
      (xs : List A) → has_duplicate (map id xs) ≡ false → AllDistinct id xs
  unfolding has_duplicate
  has_duplicate-AllDistinct [] h = tt
  has_duplicate-AllDistinct (x ∷ xs) h =
      let (fresh, rest) = or_parts (is_member (id x) (map id xs)) (has_duplicate (map id xs)) h in
      (is_member-ne (id x) xs fresh, has_duplicate-AllDistinct xs rest)

settle-keys :
    (x : Option Error) (t : Tables) (s : Session)
    → violates_keys t ≡ false
    → violates_keys s.committed ≡ false
    → violates_keys (settle x t s).1.committed ≡ false
settle-keys none t s new old = new
settle-keys (some e) t s new old = old

-- A commit leaves committed tables whose keys differ if they did before, whether it returns or raises.
pub commit-keys :
    (db : Database) (s : Session)
    → violates_keys s.committed ≡ false
    → violates_keys (commit db s).1.committed ≡ false
unfolding commit
commit-keys db s old = elim (Bool-cases (all_serializable s.bound)) [
  | inr bad ↦ rw bad old
  | inl fine ↦ elim (Bool-cases (violates_keys (with_rows s.loaded s.added))) [
    | inl taken ↦ rw (fine, taken) old
    | inr free ↦ rw (fine, free) (settle-keys _ _ s free old)
  ]
]

-- A commit that binds no value without JSON form and leaves the keys distinct does what the database says.
pub commit-settles :
    (db : Database) (s : Session)
    → all_serializable s.bound ≡ true
    → violates_keys (with_rows s.loaded s.added) ≡ false
    → commit db s
      ≡ settle (db s.committed (with_rows s.loaded s.added)) (with_rows s.loaded s.added) s
unfolding commit
commit-settles db s fine free = rw (fine, free) refl
