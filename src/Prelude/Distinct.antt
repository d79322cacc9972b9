-- ===== src/Prelude/Distinct.antt =====
-- Lists no two of whose items have the same key, and lengths, under permutation.
use mathlib.Core.Path.{◌≡◌, refl, sym, ap, ◌∙◌, subst}
use mathlib.Core.Logic.{◌≢◌, inl, inr}
use mathlib.Core.Bool.{Bool}
use mathlib.Core.List.{List, [], ◌∷◌, Permᴰ}
use Prim.Native.Nat.{ℕ, zero, suc, ◌-◌}
use native.Mathlib.Omega.{arith}
use rules_enrichment_daemon.Prelude.Tests.{Bool-cases}
use rules_enrichment_daemon.Prelude.Lists.{All, All-filter, filter, length, drop}

module _ {ℓ} {A : Type ℓ} {K : Type 0} (key : A → K) where
  -- no two items have the same key
  abbrev pub AllDistinct : List A → Type 0
  AllDistinct [] = Unit
  AllDistinct (x ∷ xs) = All (λ y. key x ≢ key y) xs × AllDistinct xs

module _ {A K : Type 0} (key : A → K) where
  All-ne_perm :
      (a : A) {xs ys : List A}
      → Permᴰ xs ys
      → All (λ y. key a ≢ key y) xs
      → All (λ y. key a ≢ key y) ys
  All-ne_perm a Permᴰ.nil h = tt
  All-ne_perm a (Permᴰ.cons e p) h = (rw (← e) h.0, All-ne_perm a p h.1)
  All-ne_perm a (Permᴰ.swap e e') h = (rw (← e') h.1.0, (rw (← e) h.0, h.1.1))
  All-ne_perm a (Permᴰ.trans p q) h = All-ne_perm a q (All-ne_perm a p h)

  pub AllDistinct-perm : {xs ys : List A} → Permᴰ xs ys → AllDistinct key xs → AllDistinct key ys
  AllDistinct-perm Permᴰ.nil h = tt
  AllDistinct-perm (Permᴰ.cons e p) h = (rw (← e) (All-ne_perm _ p h.0), AllDistinct-perm p h.1)
  AllDistinct-perm (Permᴰ.swap {l = l} e e') h = (
    (rw (← e, ← e') (λ same. h.0.0 (sym same)), subst (λ z. All (λ y. key z ≢ key y) l) e' h.1.0),
    (subst (λ z. All (λ y. key z ≢ key y) l) e h.0.1, h.1.1),
  )
  AllDistinct-perm (Permᴰ.trans p q) h = AllDistinct-perm q (AllDistinct-perm p h)

module _ {A K : Type 0} (test : A → Bool) where
  pub AllDistinct-filter :
      (key : A → K) (xs : List A) → AllDistinct key xs → AllDistinct key (filter test xs)
  AllDistinct-filter key [] h = tt
  AllDistinct-filter key (x ∷ xs) h = elim (Bool-cases (test x)) [
    | inl yes_it ↦
        rw yes_it (All-filter test (λ y. key x ≢ key y) xs h.0, AllDistinct-filter key xs h.1)
    | inr not_it ↦ rw not_it (AllDistinct-filter key xs h.1)
  ]

module _ {ℓ} {A : Type ℓ} where
  pub length-perm : {xs ys : List A} → Permᴰ xs ys → length xs ≡ length ys
  length-perm Permᴰ.nil = refl
  length-perm (Permᴰ.cons e p) = ap suc (length-perm p)
  length-perm (Permᴰ.swap e e') = refl
  length-perm (Permᴰ.trans p q) = length-perm p ∙ length-perm q

  pub length-drop : (n : ℕ) (xs : List A) → length (drop n xs) ≡ length xs - n
  length-drop zero xs = omega arith
  length-drop (suc n) [] = omega arith
  length-drop (suc n) (x ∷ xs) = omega (arith, length-drop n xs)
