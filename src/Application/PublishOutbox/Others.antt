-- ===== src/Application/PublishOutbox/Others.antt =====
-- The items behind the first ones of a list, as those with other ids.
use rules_enrichment_daemon.Prelude.{
  ℕ, zero, suc, String, ◌≡◌, refl, ◌≢◌, ◌∙◌, ap, Bool, true, false, not, List, [], ◌∷◌, map, take,
  drop, filter, All, All-map, arith, eq_iff, eq_refl,
}
use rules_enrichment_daemon.Prelude.Distinct.{AllDistinct}
use rules_enrichment_daemon.Domain.Order.{is_member}
use rules_enrichment_daemon.Application.PublishOutbox.Delivered.{filter-ext}

module _ {A : Type 0} where
  filter-ext_All :
      (p q : A → Bool) (xs : List A) → All (λ x. p x ≡ q x) xs → filter p xs ≡ filter q xs
  filter-ext_All p q [] h = refl
  filter-ext_All p q (x ∷ xs) h = rw (h.0, filter-ext_All p q xs h.1)

  filter_all : (xs : List A) → filter (λ x. true) xs ≡ xs
  filter_all [] = refl
  filter_all (x ∷ xs) = ap (λ ys. x ∷ ys) (filter_all xs)

  pub All-take : (P : A → Type 0) (n : ℕ) (xs : List A) → All P xs → All P (take n xs)
  All-take P zero xs h = tt
  All-take P (suc n) [] h = tt
  All-take P (suc n) (x ∷ xs) h = (h.0, All-take P n xs h.1)

  module _ (id : A → String) where
    -- the items whose id is not one of these
    abbrev pub others : List String → A → Bool
    others ids x = not (is_member (id x) ids)

    others-cons :
        (k : String) (ids : List String) (x : A) → k ≢ id x → others (k ∷ ids) x ≡ others ids x
    unfolding is_member
    others-cons k ids x ne = ground (arith, eq_iff k (id x))

    others-nil : (x : A) → others [] x ≡ true
    unfolding is_member
    others-nil x = refl

    others_self : (ids : List String) (x : A) → others (id x ∷ ids) x ≡ false
    unfolding is_member
    others_self ids x = rw (eq_refl (id x)) refl

    -- the items behind the first `n`
    pub others-take :
        (n : ℕ) (xs : List A)
        → AllDistinct id xs
        → filter (others (map id (take n xs))) xs ≡ drop n xs
    others-take zero xs h = filter-ext _ (λ x. true) xs others-nil ∙ filter_all xs
    others-take (suc n) [] h = refl
    others-take (suc n) (x ∷ xs) h = rw (others_self (map id (take n xs)) x) (
        filter-ext_All (others (id x ∷ map id (take n xs))) (others (map id (take n xs))) xs
          (All-map _ _ (λ y ne. others-cons (id x) (map id (take n xs)) y ne) xs h.0)
        ∙ others-take n xs h.1)
