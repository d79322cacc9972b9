-- ===== src/Migrations/RoundTrip.antt =====
-- The upgrades that seed rules and their downgrades.
use Prim.Native.String.{◌++◌}
use Prim.Native.Char.{code}
use text.Mathlib.TextLemmas.{nil-append, cons-append, append_cancel_left}
use rules_enrichment_daemon.Prelude.{
  ℕ, zero, suc, ◌+◌, ◌≤◌, ◌<◌, ◌≢◌, arith, eq_iff, All-append, String, Bool, true, false, not, ◌≡◌,
  refl, ◌∙◌, ap, sym, List, [], ◌∷◌, map, filter, filter_of_All, All, All-map, Bool-cases, inl, inr,
  if◌then◌else◌,
}
use rules_enrichment_daemon.Prelude as Prelude
use rules_enrichment_daemon.Prelude.Int.{ℤ}
use rules_enrichment_daemon.Prelude.Text.{codes, begins, starts_with}
use rules_enrichment_daemon.Domain.Datetime.{Datetime}
use rules_enrichment_daemon.Domain.Errors.{ok}
use rules_enrichment_daemon.Persistence.Models.{EnrichmentRuleModel}
use rules_enrichment_daemon.Persistence.Session.{has_duplicate}
use rules_enrichment_daemon.Persistence.Session.Keys.{has_duplicate-AllDistinct}
use rules_enrichment_daemon.Prelude.Distinct.{AllDistinct}
use rules_enrichment_daemon.Domain.Order.{is_member}
use rules_enrichment_daemon.Migrations.Numbering.{padded_inj}
use rules_enrichment_daemon.Migrations.{padded, rows_from, bulk_insert, delete_like}
use rules_enrichment_daemon.Migrations.Bulk.{bulk_rule, upgrade_bulk, downgrade_bulk}
use rules_enrichment_daemon.Migrations.Longtail.{
  longtail_rule, upgrade_longtail, downgrade_longtail,
}

abbrev Rows : Type 0
Rows = List EnrichmentRuleModel

module _ (test : EnrichmentRuleModel → Bool) where
  filter-append_dropped :
      (xs ys : Rows)
      → All (λ r. test r ≡ true) xs
      → All (λ r. test r ≡ false) ys
      → filter test (Prelude.◌++◌ xs ys) ≡ xs
  filter-append_dropped [] [] kept dropped = refl
  filter-append_dropped [] (y ∷ ys) kept dropped =
      rw dropped.0 (filter-append_dropped [] ys tt dropped.1)
  filter-append_dropped (x ∷ xs) ys kept dropped =
      rw kept.0 (ap (λ zs. x ∷ zs) (filter-append_dropped xs ys kept.1 dropped))

All-rows_from :
    (P : EnrichmentRuleModel → Type 0) (row : ℕ → EnrichmentRuleModel) (first n : ℕ)
    → ((i : ℕ) → first ≤ i → i < first + n → P (row i))
    → All P (rows_from row first n)
unfolding rows_from
All-rows_from P row first zero h = tt
All-rows_from P row first (suc n) h = (
  h first (omega arith) (omega arith),
  All-rows_from P row (first + 1) n (λ i low high. h i (omega (arith, low)) (omega (arith, high))),
)

bulk_named : (now : Datetime) (i : ℕ) → (bulk_rule now i).rule_id ≡ "BULK-RULE-" ++ padded 5 i
unfolding bulk_rule
bulk_named now i = refl

longtail_named :
    (rounded : ℕ → ℤ × ℕ) (now : Datetime) (i : ℕ)
    → (longtail_rule rounded now i).rule_id ≡ "LTAIL-RULE-" ++ padded 5 i
unfolding longtail_rule
longtail_named rounded now i = refl

codes-append : (s t : String) → codes (s ++ t) ≡ Prelude.◌++◌ (codes s) (codes t)
codes-append String.[] t = ap codes (nil-append t)
codes-append (String.◌∷◌ c s) t =
    ap codes (cons-append c s t) ∙ ap (λ xs. code c ∷ xs) (codes-append s t)

begins-append : (xs ys : List ℕ) → begins (Prelude.◌++◌ xs ys) xs ≡ true
unfolding begins
begins-append [] [] = refl
begins-append [] (y ∷ ys) = refl
begins-append (x ∷ xs) ys = ground (arith, begins-append xs ys)

starts_with-append : (s t : String) → starts_with (s ++ t) s ≡ true
unfolding starts_with
starts_with-append s t = rw (codes-append s t) (begins-append (codes s) (codes t))

abbrev ids : Rows → List String
ids = map (λ r. r.rule_id)

ne-is_member :
    (k : String) (rows : Rows) → All (λ r. k ≢ r.rule_id) rows → is_member k (ids rows) ≡ false
unfolding is_member
ne-is_member k [] h = refl
ne-is_member k (r ∷ rows) h = ground (arith, eq_iff r.rule_id k, ne-is_member k rows h.1, h.0)

AllDistinct-has_duplicate :
    (rows : Rows) → AllDistinct (λ r. r.rule_id) rows → has_duplicate (ids rows) ≡ false
unfolding has_duplicate
AllDistinct-has_duplicate [] h = refl
AllDistinct-has_duplicate (r ∷ rows) h =
    rw (ne-is_member r.rule_id rows h.0, AllDistinct-has_duplicate rows h.1) refl

AllDistinct-append :
    (xs ys : Rows)
    → AllDistinct (λ r. r.rule_id) xs
    → AllDistinct (λ r. r.rule_id) ys
    → All (λ x. All (λ y. x.rule_id ≢ y.rule_id) ys) xs
    → AllDistinct (λ r. r.rule_id) (Prelude.◌++◌ xs ys)
AllDistinct-append [] ys dx dy apart = dy
AllDistinct-append (x ∷ xs) ys dx dy apart =
    (All-append _ xs ys dx.0 apart.0, AllDistinct-append xs ys dx.1 dy apart.1)

module _ (prefix : String) (row : ℕ → EnrichmentRuleModel)
    (named : (i : ℕ) → (row i).rule_id ≡ prefix ++ padded 5 i) where
  rows_from-prefixed :
      (first n : ℕ) → All (λ r. starts_with r.rule_id prefix ≡ true) (rows_from row first n)
  rows_from-prefixed first n =
      All-rows_from (λ r. starts_with r.rule_id prefix ≡ true) row first n
        (λ i low high. rw (named i) (starts_with-append prefix (padded 5 i)))

  rows_from-AllDistinct :
      (first n : ℕ) → first + n ≤ 100000 → AllDistinct (λ r. r.rule_id) (rows_from row first n)
  unfolding rows_from
  rows_from-AllDistinct first zero h = tt
  rows_from-AllDistinct first (suc n) h = (
    All-rows_from (λ r. (row first).rule_id ≢ r.rule_id) row (first + 1) n
        (λ i low high same.
          absurd
            (omega (arith, low, same_number first i (omega arith) (omega (arith, high)) same))),
    rows_from-AllDistinct (first + 1) n (omega arith),
  )
    where
      same_number : (i j : ℕ) → i < 100000 → j < 100000 → (row i).rule_id ≡ (row j).rule_id → i ≡ j
      same_number i j h h' same =
          padded_inj 5 i j h h'
            (append_cancel_left prefix (padded 5 i) (padded 5 j) (sym (named i) ∙ same ∙ named j))

  -- Inserting the rows succeeds, keeps the ids distinct, and is undone by deleting those with the
  -- prefix.
  delete_like-bulk_insert :
      (n : ℕ) (table : Rows)
      → n < 100000
      → has_duplicate (ids table) ≡ false
      → All (λ r. starts_with r.rule_id prefix ≡ false) table
      → let table' = Prelude.◌++◌ table (rows_from row 1 n) in
        (bulk_insert (rows_from row 1 n) table ≡ ok table')
        × (has_duplicate (ids table') ≡ false)
        × (delete_like prefix table' ≡ table)
  unfolding bulk_insert delete_like
  delete_like-bulk_insert n table h distinct other =
      let rows = rows_from row 1 n in
      let prefixed = rows_from-prefixed 1 n in
      let apart : All (λ x. All (λ y. x.rule_id ≢ y.rule_id) rows) table =
        All-map _ _
          (λ x not_prefixed.
            All-map _ _ (λ y is_prefixed same. differ x y not_prefixed is_prefixed same) rows
              prefixed)
          table other in
      let fresh = AllDistinct-has_duplicate (Prelude.◌++◌ table rows) (
        AllDistinct-append table rows (has_duplicate-AllDistinct (λ r. r.rule_id) table distinct)
          (rows_from-AllDistinct 1 n (omega arith)) apart) in
      (
        rw fresh refl,
        fresh,
        filter-append_dropped (λ r. not (starts_with r.rule_id prefix)) table rows
            (All-map _ _ (λ r e. ap not e) table other)
            (All-map _ _ (λ r e. ap not e) rows prefixed),
      )
    where
      differ :
          (x y : EnrichmentRuleModel)
          → starts_with x.rule_id prefix ≡ false
          → starts_with y.rule_id prefix ≡ true
          → x.rule_id ≡ y.rule_id
          → ⊥
      differ x y e e' same = cc

not_longtail : (s : String) → starts_with ("BULK-RULE-" ++ s) "LTAIL-RULE-" ≡ false
unfolding starts_with begins
not_longtail s = rw (codes-append "BULK-RULE-" s) refl

-- On a table whose ids are distinct and none of which begins with "BULK-RULE-" or "LTAIL-RULE-", the
-- two migrations that seed rules succeed one after the other, and their downgrades, in the opposite
-- order, give the table back.
pub downgrade-upgrade :
    (rounded : ℕ → ℤ × ℕ) (now later : Datetime) (table : Rows)
    → has_duplicate (map (λ r. r.rule_id) table) ≡ false
    → All (λ r. starts_with r.rule_id "BULK-RULE-" ≡ false) table
    → All (λ r. starts_with r.rule_id "LTAIL-RULE-" ≡ false) table
    → (bulk all : Rows) × (upgrade_bulk now table ≡ ok bulk)
      × (upgrade_longtail rounded later bulk ≡ ok all)
      × (downgrade_longtail all ≡ bulk)
      × (downgrade_bulk bulk ≡ table)
unfolding upgrade_bulk downgrade_bulk upgrade_longtail downgrade_longtail
downgrade-upgrade rounded now later table distinct no_bulk no_longtail =
    let rows = rows_from (bulk_rule now) 1 3200 in
    let bulk = Prelude.◌++◌ table rows in
    let (inserted, distinct', deleted) =
      delete_like-bulk_insert "BULK-RULE-" (bulk_rule now) (bulk_named now) 3200 table (omega arith)
        distinct no_bulk in
    let none_yet = All-append _ table rows no_longtail (
      All-rows_from (λ r. starts_with r.rule_id "LTAIL-RULE-" ≡ false) (bulk_rule now) 1 3200
        (λ i low high. rw (bulk_named now i) (not_longtail (padded 5 i)))) in
    let (inserted', _, deleted') =
      delete_like-bulk_insert "LTAIL-RULE-" (longtail_rule rounded later)
        (longtail_named rounded later) 2800 bulk (omega arith) distinct' none_yet in
    (
      bulk,
      Prelude.◌++◌ bulk (rows_from (longtail_rule rounded later) 1 2800),
      inserted,
      inserted',
      deleted',
      deleted,
    )
