-- ===== src/Prelude/Sort.antt =====
-- A stable sort by an integer key: Python's `list.sort(key=...)` and SQL's `ORDER BY`.
use mathlib.Core.Path.{◌≡◌, refl, ap, ◌∙◌}
use mathlib.Core.Logic.{◌≢◌, inl, inr}
use mathlib.Core.Bool.{Bool, true, false, not, ◌&&◌}
use mathlib.Core.List.{List, [], ◌∷◌, ◌++◌, Permᴰ}
use mathlib.Core.List.Permᴰ
use native.Mathlib.Omega.{arith}
use rules_enrichment_daemon.Prelude.Tests.{Bool-cases, if◌then◌else◌}
use rules_enrichment_daemon.Prelude.Lists.{All, All-map, All-filter, filter}
use rules_enrichment_daemon.Prelude.Distinct.{AllDistinct, AllDistinct-perm}
use rules_enrichment_daemon.Prelude.Int.{ℤ, ◌≤ℤ◌, leb_ℤ, eq_of_parts}

module _ {ℓ} {A : Type ℓ} (key : A → ℤ) where
  -- in front of the first item whose key is not smaller
  insert_by : A → List A → List A
  insert_by x [] = x ∷ []
  insert_by x (y ∷ ys) = if leb_ℤ (key x) (key y) then x ∷ y ∷ ys else y ∷ insert_by x ys

  unfoldable pub sort_by : List A → List A
  unfolding insert_by
  sort_by [] = []
  sort_by (x ∷ xs) = insert_by x (sort_by xs)

  -- the keys ascend
  abbrev pub IsSorted : List A → Type 0
  IsSorted [] = Unit
  IsSorted (x ∷ xs) = All (λ y. key x ≤ℤ key y) xs × IsSorted xs

module _ {ℓ κ} {A : Type ℓ} (key : A → ℤ) (P : A → Type κ) where
  All-insert_by : (x : A) (xs : List A) → P x → All P xs → All P (insert_by key x xs)
  unfolding insert_by
  All-insert_by x [] p h = (p, tt)
  All-insert_by x (y ∷ ys) p h = elim (Bool-cases (leb_ℤ (key x) (key y))) [
    | inl le ↦ rw le (p, h)
    | inr gt ↦ rw gt (h.0, All-insert_by x ys p h.1)
  ]

  pub All-sort_by : (xs : List A) → All P xs → All P (sort_by key xs)
  unfolding sort_by
  All-sort_by [] h = tt
  All-sort_by (x ∷ xs) h = All-insert_by x (sort_by key xs) h.0 (All-sort_by xs h.1)

module _ {ℓ} {A : Type ℓ} (key : A → ℤ) where
  insert_by-IsSorted : (x : A) (xs : List A) → IsSorted key xs → IsSorted key (insert_by key x xs)
  unfolding insert_by
  insert_by-IsSorted x [] h = (tt, tt)
  insert_by-IsSorted x (y ∷ ys) h = elim (Bool-cases (leb_ℤ (key x) (key y))) [
    | inl le ↦ rw le (
      (
        ground arith,
        All-map (λ z. key y ≤ℤ key z) (λ z. key x ≤ℤ key z) (λ z p. ground arith) ys h.0,
      ),
      h,
    )
    | inr gt ↦ rw gt (
      All-insert_by key (λ z. key y ≤ℤ key z) x ys (ground arith) h.0,
      insert_by-IsSorted x ys h.1,
    )
  ]

  -- The keys of the result ascend.
  pub sort_by-IsSorted : (xs : List A) → IsSorted key (sort_by key xs)
  unfolding sort_by
  sort_by-IsSorted [] = tt
  sort_by-IsSorted (x ∷ xs) = insert_by-IsSorted x (sort_by key xs) (sort_by-IsSorted xs)

  insert_by-first :
      (x : A) (xs : List A) → All (λ y. key x ≤ℤ key y) xs → insert_by key x xs ≡ x ∷ xs
  unfolding insert_by
  insert_by-first x [] h = refl
  insert_by-first x (y ∷ ys) h = ground (arith, h.0)

  -- Sorting an ascending list changes nothing.
  pub sort_by_of_IsSorted : (xs : List A) → IsSorted key xs → sort_by key xs ≡ xs
  unfolding sort_by
  sort_by_of_IsSorted [] h = refl
  sort_by_of_IsSorted (x ∷ xs) h =
      ap (insert_by key x) (sort_by_of_IsSorted xs h.1) ∙ insert_by-first x xs h.0

  insert_by-perm : (x : A) (xs : List A) → Permᴰ (insert_by key x xs) (x ∷ xs)
  unfolding insert_by
  insert_by-perm x [] = Permᴰ.refl (x ∷ [])
  insert_by-perm x (y ∷ ys) = elim (Bool-cases (leb_ℤ (key x) (key y))) [
    | inl le ↦ rw le (Permᴰ.refl (x ∷ y ∷ ys))
    | inr gt ↦ rw gt (Permᴰ.trans (Permᴰ.cons refl (insert_by-perm x ys)) (Permᴰ.swap refl refl))
  ]

  -- The result has the items of the list, as often.
  pub sort_by-perm : (xs : List A) → Permᴰ (sort_by key xs) xs
  unfolding sort_by
  sort_by-perm [] = Permᴰ.nil
  sort_by-perm (x ∷ xs) =
      Permᴰ.trans (insert_by-perm x (sort_by key xs)) (Permᴰ.cons refl (sort_by-perm xs))

module _ {A : Type 0} (key : A → ℤ) where
  insert_by_comm :
      (x y : A) (xs : List A)
      → key x ≢ key y
      → insert_by key x (insert_by key y xs) ≡ insert_by key y (insert_by key x xs)
  unfolding insert_by
  insert_by_comm x y [] ne = ground (arith, eq_of_parts (key x) (key y))
  insert_by_comm x y (z ∷ zs) ne =
      ground (arith, eq_of_parts (key x) (key y), insert_by_comm x y zs ne)

  -- With keys that all differ, the sorted list does not depend on the order of the input.
  pub sort_by-perm_invariant :
      {xs ys : List A} → Permᴰ xs ys → AllDistinct key xs → sort_by key xs ≡ sort_by key ys
  unfolding sort_by
  sort_by-perm_invariant Permᴰ.nil h = refl
  sort_by-perm_invariant (Permᴰ.cons e p) h = rw (e, sort_by-perm_invariant p h.1)
  sort_by-perm_invariant (Permᴰ.swap {a} {b} {l = l} e e') h =
      rw (← e, ← e') (insert_by_comm a b (sort_by key l) h.0.0)
  sort_by-perm_invariant (Permᴰ.trans p q) h =
      sort_by-perm_invariant p h ∙ sort_by-perm_invariant q (AllDistinct-perm key p h)

module _ {ℓ} {A : Type ℓ} where
  keep-perm :
      (b : Bool) (x : A) {xs ys : List A}
      → Permᴰ xs ys
      → Permᴰ (if b then x ∷ xs else xs) (if b then x ∷ ys else ys)
  keep-perm true x p = Permᴰ.cons refl p
  keep-perm false x p = p

  swap-perm :
      (b c : Bool) (x y : A) (l : List A)
      → Permᴰ
          (if b then x ∷ (if c then y ∷ l else l) else (if c then y ∷ l else l))
          (if c then y ∷ (if b then x ∷ l else l) else (if b then x ∷ l else l))
  swap-perm true true x y l = Permᴰ.swap refl refl
  swap-perm true false x y l = Permᴰ.refl _
  swap-perm false c x y l = Permᴰ.refl _

module _ {A : Type 0} (test : A → Bool) where
  pub filter-perm : {xs ys : List A} → Permᴰ xs ys → Permᴰ (filter test xs) (filter test ys)
  filter-perm Permᴰ.nil = Permᴰ.nil
  filter-perm (Permᴰ.cons {a} e p) = rw (← e) (keep-perm (test a) a (filter-perm p))
  filter-perm (Permᴰ.swap {a} {b} {l = l} e e') =
      rw (← e, ← e') (swap-perm (test a) (test b) a b (filter test l))
  filter-perm (Permᴰ.trans p q) = Permᴰ.trans (filter-perm p) (filter-perm q)

  -- What a filter keeps and what it drops are together the items of the list.
  pub filter-perm_split : (xs : List A) → Permᴰ (filter test xs ++ filter (λ x. not (test x)) xs) xs
  filter-perm_split [] = Permᴰ.nil
  filter-perm_split (x ∷ xs) = elim (Bool-cases (test x)) [
    | inl kept ↦ rw kept (Permᴰ.cons refl (filter-perm_split xs))
    | inr dropped ↦ rw dropped (
        Permᴰ.trans (Permᴰ.middle x (filter test xs) (filter (λ y. not (test y)) xs))
          (Permᴰ.cons refl (filter-perm_split xs)))
  ]

module _ {A : Type 0} where
  pub filter-filter :
      (p q : A → Bool) (xs : List A) → filter (λ x. p x && q x) xs ≡ filter q (filter p xs)
  filter-filter p q [] = refl
  filter-filter p q (x ∷ xs) = ground (arith, filter-filter p q xs)

  pub filter_comm : (p q : A → Bool) (xs : List A) → filter p (filter q xs) ≡ filter q (filter p xs)
  filter_comm p q [] = refl
  filter_comm p q (x ∷ xs) = ground (arith, filter_comm p q xs)

module _ {A : Type 0} (key : A → ℤ) (k : ℤ) where
  -- the key of the item is `k`
  abbrev pub has_key : A → Bool
  has_key x = leb_ℤ (key x) k && leb_ℤ k (key x)

  filter-insert_by :
      (x : A) (xs : List A) → filter has_key (insert_by key x xs) ≡ filter has_key (x ∷ xs)
  unfolding insert_by
  filter-insert_by x [] = refl
  filter-insert_by x (y ∷ ys) = ground (arith, filter-insert_by x ys)

  -- Items of one key keep their order.
  pub filter-sort_by : (xs : List A) → filter has_key (sort_by key xs) ≡ filter has_key xs
  unfolding sort_by
  filter-sort_by [] = refl
  filter-sort_by (x ∷ xs) = filter-insert_by x (sort_by key xs) ∙ rw (filter-sort_by xs) refl

module _ {ℓ} {A : Type ℓ} (key : A → ℤ) (test : A → Bool) where
  pub IsSorted-filter : (xs : List A) → IsSorted key xs → IsSorted key (filter test xs)
  IsSorted-filter [] h = tt
  IsSorted-filter (x ∷ xs) h = elim (Bool-cases (test x)) [
    | inl kept ↦ rw kept (All-filter test (λ y. key x ≤ℤ key y) xs h.0, IsSorted-filter xs h.1)
    | inr dropped ↦ rw dropped (IsSorted-filter xs h.1)
  ]
