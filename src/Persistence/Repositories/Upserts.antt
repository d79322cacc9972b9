-- ===== src/Persistence/Repositories/Upserts.antt =====
-- What `upsert_many` does to the lookup of rules.
use rules_enrichment_daemon.Prelude.{
  String, ◌≡◌, refl, ◌≢◌, ◌∙◌, ap, sym, false, Option, none, some, List, [], ◌∷◌, ◌++◌, All,
  All-map, All-zip, arith, eq_refl, Option-cases, map, inl, inr,
}
use rules_enrichment_daemon.Prelude.Distinct.{AllDistinct}
use rules_enrichment_daemon.Domain.Json.Dict.{or_else}
use rules_enrichment_daemon.Domain.Errors.{ok}
use rules_enrichment_daemon.Domain.Rule.{EnrichmentRule}
use rules_enrichment_daemon.Persistence.Models.{EnrichmentRuleModel}
use rules_enrichment_daemon.Persistence.Mappers.{rule_row}
use rules_enrichment_daemon.Persistence.Session.{Session}
use rules_enrichment_daemon.Persistence.Session.Keys.{is_member-ne}
use rules_enrichment_daemon.Domain.Order.{is_member}
use rules_enrichment_daemon.Persistence.Repositories.{find_row, change_row, upsert, upsert_many}
use rules_enrichment_daemon.Persistence.Repositories.Rows.{
  find_row-append, find_row-append_ne, find_row-change_row, find_row-change_row_ne,
}

abbrev pub find_rule : String → List EnrichmentRuleModel → Option EnrichmentRuleModel
find_rule = find_row (λ r. r.rule_id)

-- the rows that a commit of the session stores
abbrev pub rule_rows : Session → List EnrichmentRuleModel
rule_rows s = s.loaded.enrichment_rules ++ s.added.enrichment_rules

find_rule-append :
    (k : String) (xs ys : List EnrichmentRuleModel)
    → find_rule k (xs ++ ys) ≡ or_else (find_rule k xs) (find_rule k ys)
unfolding find_row
find_rule-append k [] ys = refl
find_rule-append k (x ∷ xs) ys = ground (arith, find_rule-append k xs ys)

or_else-none_left : {A : Type 0} (x y : Option A) → x ≡ none → or_else x y ≡ y
or_else-none_left none y h = refl
or_else-none_left (some a) y h = cc

module _ (rule : EnrichmentRule) (s : Session) where
  abbrev id : String
  id = rule.rule_id

  -- the rule has its row, if none was added under its id before
  upsert_finds :
      find_rule id s.added.enrichment_rules ≡ none
      → find_rule id (rule_rows (upsert rule s)) ≡ some (rule_row rule)
  unfolding upsert rule_row
  upsert_finds fresh = elim (Option-cases (find_rule id s.loaded.enrichment_rules)) [
    | inl new ↦ rw new (
        find_rule-append id s.loaded.enrichment_rules
          (s.added.enrichment_rules ++ rule_row rule ∷ [])
        ∙ or_else-none_left _ _ new
        ∙ find_row-append (λ r. r.rule_id) id s.added.enrichment_rules (rule_row rule) fresh
        ∙ rw (eq_refl id) refl)
    | inr (old, there) ↦ rw there (
        find_rule-append id
          (change_row (λ r. r.rule_id) id (λ _. rule_row rule) s.loaded.enrichment_rules)
          s.added.enrichment_rules
        ∙ rw
            (find_row-change_row (λ r. r.rule_id) id (λ _. rule_row rule) s.loaded.enrichment_rules
              refl there)
            refl)
  ]

  -- and no other row changes
  upsert_ne :
      (k : String)
      → id ≢ k
      → (find_rule k (rule_rows (upsert rule s)) ≡ find_rule k (rule_rows s))
        × (find_rule k (upsert rule s).added.enrichment_rules
            ≡ find_rule k s.added.enrichment_rules)
  unfolding upsert rule_row
  upsert_ne k ne = elim (Option-cases (find_rule id s.loaded.enrichment_rules)) [
    | inl new ↦
        let added =
          find_row-append_ne (λ r. r.rule_id) k s.added.enrichment_rules (rule_row rule) ne in
        rw new (
          find_rule-append k s.loaded.enrichment_rules
                (s.added.enrichment_rules ++ rule_row rule ∷ [])
              ∙ ap (or_else (find_rule k s.loaded.enrichment_rules)) added
              ∙ sym (find_rule-append k s.loaded.enrichment_rules s.added.enrichment_rules),
          added,
        )
    | inr (old, there) ↦ rw there (
      find_rule-append k
            (change_row (λ r. r.rule_id) id (λ _. rule_row rule) s.loaded.enrichment_rules)
            s.added.enrichment_rules
          ∙ ap (λ x. or_else x (find_rule k s.added.enrichment_rules))
              (find_row-change_row_ne (λ r. r.rule_id) k id (λ _. rule_row rule)
                s.loaded.enrichment_rules (λ x e. refl) (λ same. ne (sym same)))
          ∙ sym (find_rule-append k s.loaded.enrichment_rules s.added.enrichment_rules),
      refl,
    )
  ]

-- the session behind `upsert_many`
abbrev pub upserted : List EnrichmentRule → Session → Session
upserted [] s = s
upserted (rule ∷ rules) s = upserted rules (upsert rule s)

pub upsert_many-eq :
    (rules : List EnrichmentRule) (s : Session) → upsert_many rules s ≡ (ok tt, upserted rules s)
unfolding upsert_many
upsert_many-eq [] s = refl
upsert_many-eq (rule ∷ rules) s = upsert_many-eq rules (upsert rule s)

-- a text that is no id of the rules
pub differing :
    (k : String) (rules : List EnrichmentRule)
    → is_member k (map (λ r. r.rule_id) rules) ≡ false
    → All (λ r. r.rule_id ≢ k) rules
differing k rules h =
    All-map _ _ (λ r ne same. ne (sym same)) rules (is_member-ne (λ r. r.rule_id) k rules h)

pub upserted_ne :
    (k : String) (rules : List EnrichmentRule) (s : Session)
    → All (λ r. r.rule_id ≢ k) rules
    → find_rule k (rule_rows (upserted rules s)) ≡ find_rule k (rule_rows s)
upserted_ne k [] s h = refl
upserted_ne k (rule ∷ rules) s h =
    upserted_ne k rules (upsert rule s) h.1 ∙ (upsert_ne rule s k h.0).0

-- The rules all have their rows.
pub upserted_finds :
    (rules : List EnrichmentRule) (s : Session)
    → AllDistinct (λ r. r.rule_id) rules
    → All (λ r. find_rule r.rule_id s.added.enrichment_rules ≡ none) rules
    → All (λ r. find_rule r.rule_id (rule_rows (upserted rules s)) ≡ some (rule_row r)) rules
upserted_finds [] s distinct fresh = tt
upserted_finds (rule ∷ rules) s distinct fresh = (
  upserted_ne rule.rule_id rules (upsert rule s)
        (All-map _ _ (λ r ne same. ne (sym same)) rules distinct.0)
      ∙ upsert_finds rule s fresh.0,
  upserted_finds rules (upsert rule s) distinct.1 (
      All-map _ _ (λ r both. (upsert_ne rule s r.rule_id both.0).1 ∙ both.1) rules
        (All-zip _ _ rules distinct.0 fresh.1)),
)

upsert-committed : (rule : EnrichmentRule) (s : Session) → (upsert rule s).committed ≡ s.committed
unfolding upsert
upsert-committed rule s = elim (Option-cases (find_rule rule.rule_id s.loaded.enrichment_rules)) [
  | inl new ↦ rw new refl
  | inr (old, there) ↦ rw there refl
]

pub upserted-committed :
    (rules : List EnrichmentRule) (s : Session) → (upserted rules s).committed ≡ s.committed
upserted-committed [] s = refl
upserted-committed (rule ∷ rules) s =
    upserted-committed rules (upsert rule s) ∙ upsert-committed rule s
