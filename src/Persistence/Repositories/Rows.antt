-- ===== src/Persistence/Repositories/Rows.antt =====
-- Rows by primary key: what a change or an added row does to a lookup.
use rules_enrichment_daemon.Prelude.{
  max, String, ◌≡◌, refl, ◌≢◌, none, some, List, [], ◌∷◌, ◌++◌, arith, All, Bool-cases, inl, inr,
  str_eq, eq_iff, if◌then◌else◌,
}
use rules_enrichment_daemon.Prelude.Any.{Any}
use rules_enrichment_daemon.Persistence.Models.{ProcessingAttemptModel}
use rules_enrichment_daemon.Persistence.Repositories.{find_row, change_row, max_attempt}

module _ {A : Type 0} (id : A → String) where
  pub find_row-append :
      (k : String) (xs : List A) (y : A)
      → find_row id k xs ≡ none
      → find_row id k (xs ++ y ∷ []) ≡ (if str_eq (id y) k then some y else none)
  unfolding find_row
  find_row-append k [] y h = refl
  find_row-append k (x ∷ xs) y h = ground (arith, find_row-append k xs y)

  pub find_row-append_ne :
      (k : String) (xs : List A) (y : A)
      → id y ≢ k
      → find_row id k (xs ++ y ∷ []) ≡ find_row id k xs
  unfolding find_row
  find_row-append_ne k [] y h = ground (arith, eq_iff (id y) k)
  find_row-append_ne k (x ∷ xs) y h = ground (arith, find_row-append_ne k xs y h)

  pub find_row-change_row :
      (k : String) (change : A → A) (xs : List A) {x : A}
      → id (change x) ≡ k
      → find_row id k xs ≡ some x
      → find_row id k (change_row id k change xs) ≡ some (change x)
  unfolding find_row change_row
  find_row-change_row k change [] e h = cc
  find_row-change_row k change (y ∷ ys) e h =
      ground (arith, eq_iff (id (change y)) k, find_row-change_row k change ys e)

  pub find_row-change_row_ne :
      (j k : String) (change : A → A) (xs : List A)
      → ((x : A) → id x ≡ k → id (change x) ≡ k)
      → j ≢ k
      → find_row id j (change_row id k change xs) ≡ find_row id j xs
  unfolding find_row change_row
  find_row-change_row_ne j k change [] e h = refl
  find_row-change_row_ne j k change (y ∷ ys) e h = ground (
    arith,
    e y,
    eq_iff (id y) k,
    eq_iff (id y) j,
    eq_iff (id (change y)) j,
    find_row-change_row_ne j k change ys e h,
  )

module _ {A : Type 0} (P : A → Type 0) (id : A → String) (key : String) where
  pub All-change_row :
      (y : A) (xs : List A) → P y → All P xs → All P (change_row id key (λ _. y) xs)
  unfolding change_row
  All-change_row y [] h k = tt
  All-change_row y (x ∷ xs) h k = elim (Bool-cases (str_eq (id x) key)) [
    | inl same ↦ rw same (h, k.1)
    | inr other ↦ rw other (k.0, All-change_row y xs h k.1)
  ]

  pub Any-change_row :
      (change : A → A) (xs : List A)
      → ((x : A) → P x → P (change x))
      → Any P xs
      → Any P (change_row id key change xs)
  unfolding change_row
  Any-change_row change [] keeps h = h
  Any-change_row change (x ∷ xs) keeps (inl now) = elim (Bool-cases (str_eq (id x) key)) [
    | inl same ↦ rw same (inl (keeps x now))
    | inr other ↦ rw other (inl now)
  ]
  Any-change_row change (x ∷ xs) keeps (inr later) = elim (Bool-cases (str_eq (id x) key)) [
    | inl same ↦ rw same (inr later)
    | inr other ↦ rw other (inr (Any-change_row change xs keeps later))
  ]

pub max_attempt-append :
    (id : String) (rows : List ProcessingAttemptModel) (row : ProcessingAttemptModel)
    → max_attempt id (rows ++ row ∷ [])
      ≡ max (max_attempt id rows) (if str_eq row.order_id id then row.attempt_number else 0)
unfolding max_attempt
max_attempt-append id [] row = ground arith
max_attempt-append id (x ∷ xs) row = ground (arith, max_attempt-append id xs row)
