-- ===== src/Prelude/Any.antt =====
-- Lists with an item that satisfies a predicate.
use mathlib.Core.Logic.{◌⊎◌, inl, inr}
use mathlib.Core.Path.{◌≡◌, subst}
use mathlib.Core.Bool.{Bool, true}
use mathlib.Core.List.{List, [], ◌∷◌, ◌++◌, map, Permᴰ}
use rules_enrichment_daemon.Prelude.Tests.{Bool-cases}
use rules_enrichment_daemon.Prelude.Lists.{filter}

module _ {ℓ} {A : Type ℓ} where
  abbrev pub Any : (A → Type 0) → List A → Type 0
  Any P [] = ⊥
  Any P (x ∷ xs) = P x ⊎ Any P xs

  module _ (P : A → Type 0) where
    pub Any-append : (xs ys : List A) → Any P xs → Any P (xs ++ ys)
    Any-append [] ys h = elim h [ ]
    Any-append (x ∷ xs) ys (inl here) = inl here
    Any-append (x ∷ xs) ys (inr there) = inr (Any-append xs ys there)

    pub Any-append_last : (xs : List A) (y : A) → P y → Any P (xs ++ y ∷ [])
    Any-append_last [] y h = inl h
    Any-append_last (x ∷ xs) y h = inr (Any-append_last xs y h)

    pub Any-perm : {xs ys : List A} → Permᴰ xs ys → Any P xs → Any P ys
    Any-perm Permᴰ.nil h = h
    Any-perm (Permᴰ.cons e p) (inl here) = inl (subst P e here)
    Any-perm (Permᴰ.cons e p) (inr there) = inr (Any-perm p there)
    Any-perm (Permᴰ.swap e e') (inl here) = inr (inl (subst P e here))
    Any-perm (Permᴰ.swap e e') (inr (inl next)) = inl (subst P e' next)
    Any-perm (Permᴰ.swap e e') (inr (inr there)) = inr (inr there)
    Any-perm (Permᴰ.trans p q) h = Any-perm q (Any-perm p h)

    pub Any-filter :
        (test : A → Bool) (xs : List A)
        → Any (λ x. (test x ≡ true) × P x) xs
        → Any P (filter test xs)
    Any-filter test [] h = elim h [ ]
    Any-filter test (x ∷ xs) (inl (kept, here)) = rw kept (inl here)
    Any-filter test (x ∷ xs) (inr there) = elim (Bool-cases (test x)) [
      | inl kept ↦ rw kept (inr (Any-filter test xs there))
      | inr dropped ↦ rw dropped (Any-filter test xs there)
    ]

  module _ (P Q : A → Type 0) where
    pub Any-map : ((x : A) → P x → Q x) → (xs : List A) → Any P xs → Any Q xs
    Any-map f [] h = elim h [ ]
    Any-map f (x ∷ xs) (inl here) = inl (f x here)
    Any-map f (x ∷ xs) (inr there) = inr (Any-map f xs there)

module _ {ℓ κ} {A : Type ℓ} {B : Type κ} (P : B → Type 0) (f : A → B) where
  pub Any-of_map : (xs : List A) → Any (λ x. P (f x)) xs → Any P (map f xs)
  Any-of_map [] h = elim h [ ]
  Any-of_map (x ∷ xs) (inl here) = inl here
  Any-of_map (x ∷ xs) (inr there) = inr (Any-of_map xs there)
