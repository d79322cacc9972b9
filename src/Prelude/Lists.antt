-- ===== src/Prelude/Lists.antt =====
-- Lists over the native numbers, under the library's names, and predicates by recursion on a list.
use Prim.Native.Nat.{ℕ, zero, suc, ◌+◌, ◌≤◌}
use mathlib.Core.Path.{◌≡◌, refl}
use mathlib.Core.Bool.{Bool, true}
use mathlib.Core.Logic.{inl, inr}
use mathlib.Core.List.{List, [], ◌∷◌, ◌++◌}
use native.Mathlib.Omega.{arith}
use rules_enrichment_daemon.Prelude.Tests.{Bool-cases, if◌then◌else◌}

module _ {ℓ} {A : Type ℓ} where
  abbrev pub length : List A → ℕ
  length [] = 0
  length (x ∷ xs) = suc (length xs)

  abbrev pub take : ℕ → List A → List A
  take zero xs = []
  take (suc n) [] = []
  take (suc n) (x ∷ xs) = x ∷ take n xs

  abbrev pub drop : ℕ → List A → List A
  drop zero xs = xs
  drop (suc n) [] = []
  drop (suc n) (x ∷ xs) = drop n xs

  -- `[x for x in xs if test(x)]`
  abbrev pub filter : (A → Bool) → List A → List A
  filter test [] = []
  filter test (x ∷ xs) = if test x then x ∷ filter test xs else filter test xs

  pub length-append : (xs ys : List A) → length (xs ++ ys) ≡ length xs + length ys
  length-append [] ys = omega arith
  length-append (x ∷ xs) ys = omega (arith, length-append xs ys)

  pub length-take_le : (n : ℕ) (xs : List A) → length (take n xs) ≤ n
  length-take_le zero xs = omega arith
  length-take_le (suc n) [] = omega arith
  length-take_le (suc n) (x ∷ xs) = omega (arith, length-take_le n xs)

module _ {ℓ κ} {A : Type ℓ} where
  -- every item satisfies `P`
  abbrev pub All : (Q : A → Type κ) → List A → Type κ
  All Q [] = Unit
  All Q (first ∷ others) = Q first × All Q others

  pub All-append :
      (Q : A → Type κ) (front back : List A) → All Q front → All Q back → All Q (front ++ back)
  All-append Q [] back none_left rest = rest
  All-append Q (x ∷ front) back (first, others) rest = (first, All-append Q front back others rest)

module _ {ℓ κ ι} {A : Type ℓ} where
  pub All-map :
      (P : A → Type κ) (Q : A → Type ι) (f : (x : A) → P x → Q x) (xs : List A)
      → All P xs
      → All Q xs
  All-map P Q f [] h = tt
  All-map P Q f (x ∷ xs) h = (f x h.0, All-map P Q f xs h.1)

module _ {ℓ} {A : Type ℓ} (test : A → Bool) where
  pub All-filter_self : (xs : List A) → All (λ x. test x ≡ true) (filter test xs)
  All-filter_self [] = tt
  All-filter_self (x ∷ xs) = elim (Bool-cases (test x)) [
    | inl kept ↦ rw kept (kept, All-filter_self xs)
    | inr dropped ↦ rw dropped (All-filter_self xs)
  ]

  -- A filter that keeps every item changes nothing.
  pub filter_of_All : (xs : List A) → All (λ x. test x ≡ true) xs → filter test xs ≡ xs
  filter_of_All [] h = refl
  filter_of_All (x ∷ xs) h = rw (h.0, filter_of_All xs h.1)

module _ {ℓ κ} {A : Type ℓ} (test : A → Bool) (P : A → Type κ) where
  pub All-filter : (xs : List A) → All P xs → All P (filter test xs)
  All-filter [] h = tt
  All-filter (x ∷ xs) h = elim (Bool-cases (test x)) [
    | inl kept ↦ rw kept (h.0, All-filter xs h.1)
    | inr dropped ↦ rw dropped (All-filter xs h.1)
  ]

module _ {ℓ κ ι} {A : Type ℓ} where
  pub All-zip :
      (P : A → Type κ) (Q : A → Type ι) (xs : List A)
      → All P xs
      → All Q xs
      → All (λ x. P x × Q x) xs
  All-zip P Q [] h k = tt
  All-zip P Q (x ∷ xs) h k = ((h.0, k.0), All-zip P Q xs h.1 k.1)
