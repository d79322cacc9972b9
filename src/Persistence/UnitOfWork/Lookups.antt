-- ===== src/Persistence/UnitOfWork/Lookups.antt =====
-- Lookups in the rows that a session has loaded and in those that it has added.
use mathlib.Core.Path.{subst}
use rules_enrichment_daemon.Prelude.{
  String, ◌≡◌, refl, ◌∙◌, ap, sym, ◌≢◌, Option, none, some, List, [], ◌∷◌, ◌++◌, All, arith, eq_iff,
  str_eq, Bool-cases, inl, inr, if◌then◌else◌,
}
use rules_enrichment_daemon.Prelude.Distinct.{AllDistinct}
use rules_enrichment_daemon.Domain.Json.Dict.{or_else}
use rules_enrichment_daemon.Persistence.Repositories.{find_row}

or_else-none : {A : Type 0} (o : Option A) → or_else o none ≡ o
or_else-none none = refl
or_else-none (some a) = refl

module _ {A : Type 0} (id : A → String) (k : String) where
  -- the last row of a key
  abbrev pub find_last : List A → Option A
  find_last [] = none
  find_last (x ∷ xs) = or_else (find_last xs) (if str_eq (id x) k then some x else none)

  pub find_last-append :
      (xs : List A) (y : A)
      → find_last (xs ++ y ∷ []) ≡ (if str_eq (id y) k then some y else find_last xs)
  find_last-append [] y = ground arith
  find_last-append (x ∷ xs) y =
      ap (λ o. or_else o (if str_eq (id x) k then some x else none)) (find_last-append xs y)
      ∙ elim (Bool-cases (str_eq (id y) k)) [ inl same ↦ rw same refl | inr other ↦ rw other refl ]

  find_last-absent : (xs : List A) → All (λ x. k ≢ id x) xs → find_last xs ≡ none
  find_last-absent [] h = refl
  find_last-absent (x ∷ xs) h = ground (arith, find_last-absent xs h.1, h.0, eq_iff (id x) k)

  find_last-distinct : (xs : List A) → AllDistinct id xs → find_last xs ≡ find_row id k xs
  unfolding find_row
  find_last-distinct [] h = refl
  find_last-distinct (x ∷ xs) h = elim (Bool-cases (str_eq (id x) k)) [
    | inr other ↦ rw (other, find_last-distinct xs h.1) (or_else-none (find_row id k xs))
    | inl same ↦
        let own : id x ≡ k = ground (arith, eq_iff (id x) k) in
        let apart : All (λ y. k ≢ id y) xs = subst (λ key. All (λ y. key ≢ id y) xs) own h.0 in
        rw (same, find_last-absent xs apart) refl
  ]

  -- In distinct rows a key is found where it stands.
  pub find_row-parts :
      (xs ys : List A)
      → AllDistinct id (xs ++ ys)
      → find_row id k (xs ++ ys) ≡ or_else (find_row id k xs) (find_last ys)
  unfolding find_row
  find_row-parts [] ys h = sym (find_last-distinct ys h)
  find_row-parts (x ∷ xs) ys h = ground (arith, find_row-parts xs ys h.1)
