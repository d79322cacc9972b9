-- ===== src/Prelude/TextOrder.antt =====
-- Python's order on texts, by code points.
use text.Mathlib.TextEquality.{Char-path}
use rules_enrichment_daemon.Prelude.Text.{codes}
use rules_enrichment_daemon.Prelude.{
  ℕ, String, ◌≡◌, refl, ◌≢◌, ap, Bool, Bool-cases, inl, inr, true, false, not, ◌&&◌, ◌||◌, List, [],
  ◌∷◌, arith, ltb, ◌==◌,
}

-- `xs < ys` on code points
abbrev before_codes : List ℕ → List ℕ → Bool
before_codes [] [] = false
before_codes [] (y ∷ ys) = true
before_codes (x ∷ xs) [] = false
before_codes (x ∷ xs) (y ∷ ys) = ltb x y || (x == y && before_codes xs ys)

-- `s < t`
unfoldable pub precedes : String → String → Bool
precedes s t = before_codes (codes s) (codes t)

before_codes-between :
    (i j k : List ℕ) → before_codes i k ≡ false → before_codes i j ≡ true → before_codes k j ≡ true
before_codes-between [] [] k h l = cc
before_codes-between [] (y ∷ j) [] h l = refl
before_codes-between [] (y ∷ j) (z ∷ k) h l = cc
before_codes-between (x ∷ i) [] k h l = cc
before_codes-between (x ∷ i) (y ∷ j) [] h l = refl
before_codes-between (x ∷ i) (y ∷ j) (z ∷ k) h l = ground (arith, before_codes-between i j k)

before_codes-total : (j k : List ℕ) → j ≢ k → before_codes j k ≡ not (before_codes k j)
before_codes-total [] [] h = absurd (h refl)
before_codes-total [] (y ∷ k) h = refl
before_codes-total (x ∷ j) [] h = refl
before_codes-total (x ∷ j) (y ∷ k) h = elim (Bool-cases (x == y)) [
  | inr other ↦ ground arith
  | inl same ↦
      let heads : x ≡ y = ground arith in
      let tails : j ≢ k = λ e. h (λ i. heads i ∷ e i) in
      ground (arith, before_codes-total j k tails)
]

codes_inj : (s t : String) → codes s ≡ codes t → s ≡ t
codes_inj String.[] String.[] h = refl
codes_inj String.[] (String.◌∷◌ d t) h = cc
codes_inj (String.◌∷◌ c s) String.[] h = cc
codes_inj (String.◌∷◌ c s) (String.◌∷◌ d t) h =
    λ i. String.◌∷◌ (Char-path c d (ap first h) i) (codes_inj s t (ap rest h) i)
  where
    first : List ℕ → ℕ
    first [] = 0
    first (x ∷ xs) = x

    rest : List ℕ → List ℕ
    rest [] = []
    rest (x ∷ xs) = xs

-- What comes before a text comes before what is not behind that text.
pub precedes-between :
    (i j k : String) → precedes i k ≡ false → precedes i j ≡ true → precedes k j ≡ true
unfolding precedes
precedes-between i j k h l = before_codes-between (codes i) (codes j) (codes k) h l

-- Of two texts one comes before the other.
pub precedes-total : (j k : String) → j ≢ k → precedes j k ≡ not (precedes k j)
unfolding precedes
precedes-total j k h = before_codes-total (codes j) (codes k) λ e. h (codes_inj j k e)

before_codes-same : (xs : List ℕ) → before_codes xs xs ≡ false
before_codes-same [] = refl
before_codes-same (x ∷ xs) = ground (arith, before_codes-same xs)

pub precedes-same : (s : String) → precedes s s ≡ false
unfolding precedes
precedes-same s = before_codes-same (codes s)
