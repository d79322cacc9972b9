-- ===== src/Audit/Numbers.antt =====
-- The numbers of the attempts of an order, and what a new attempt does to them.
use rules_enrichment_daemon.Prelude.{
  ℕ, zero, suc, ◌+◌, max, String, ◌≡◌, refl, ◌∙◌, ap, sym, true, List, [], ◌∷◌, ◌++◌, length, arith,
  str_eq, Bool-cases, inl, inr, if◌then◌else◌, length-append,
}
use rules_enrichment_daemon.Persistence.Models.{ProcessingAttemptModel}
use rules_enrichment_daemon.Persistence.Repositories.{max_attempt}
use rules_enrichment_daemon.Audit.{numbers, count_to}

abbrev highest : List ℕ → ℕ
highest [] = 0
highest (n ∷ ns) = max n (highest ns)

highest-append : (ns : List ℕ) (n : ℕ) → highest (ns ++ n ∷ []) ≡ max (highest ns) n
highest-append [] n = omega arith
highest-append (m ∷ ns) n = omega (arith, highest-append ns n)

highest-count_to : (n : ℕ) → highest (count_to n) ≡ n
highest-count_to zero = refl
highest-count_to (suc n) =
    rw (highest-append (count_to n) (suc n), highest-count_to n) (omega arith)

module _ (id : String) where
  max_attempt-numbers :
      (rows : List ProcessingAttemptModel) → max_attempt id rows ≡ highest (numbers id rows)
  unfolding max_attempt
  max_attempt-numbers [] = refl
  max_attempt-numbers (row ∷ rows) = ground (arith, max_attempt-numbers rows)

  numbers-append :
      (rows : List ProcessingAttemptModel) (row : ProcessingAttemptModel)
      → numbers id (rows ++ row ∷ []) ≡ (
          if str_eq row.order_id id
          then numbers id rows ++ row.attempt_number ∷ []
          else numbers id rows)
  numbers-append [] row = ground arith
  numbers-append (x ∷ rows) row = ground (arith, numbers-append rows row)

  IsCounted : List ProcessingAttemptModel → Type 0
  IsCounted rows = numbers id rows ≡ count_to (length (numbers id rows))

  -- Numbers without a gap stay so when the next one comes.
  pub numbers-counted :
      (rows : List ProcessingAttemptModel) (row : ProcessingAttemptModel)
      → (str_eq row.order_id id ≡ true → row.attempt_number ≡ max_attempt id rows + 1)
      → numbers id rows ≡ count_to (length (numbers id rows))
      → numbers id (rows ++ row ∷ []) ≡ count_to (length (numbers id (rows ++ row ∷ [])))
  numbers-counted rows row next counted = elim (Bool-cases (str_eq row.order_id id)) [
    | inr other ↦ rw (numbers-append rows row, other) counted
    | inl same ↦
        let ns = numbers id rows in
        let k = row.attempt_number in
        let n : k ≡ suc (length ns) = omega (
          arith,
          next same,
          max_attempt-numbers rows ∙ ap highest counted ∙ highest-count_to (length ns),
        ) in
        let appended : numbers id (rows ++ row ∷ []) ≡ ns ++ k ∷ [] =
          numbers-append rows row ∙ rw same refl in
        let longer : length (numbers id (rows ++ row ∷ [])) ≡ suc (length ns) =
          ap length appended ∙ omega (arith, length-append ns (k ∷ [])) in
        appended
        ∙ ap (λ x. x ++ k ∷ []) counted
        ∙ ap (λ j. count_to (length ns) ++ j ∷ []) n
        ∙ ap count_to (sym longer)
  ]
