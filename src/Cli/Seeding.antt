-- ===== src/Cli/Seeding.antt =====
-- What seeding leaves in the table of rules.
use mathlib.Core.List.{append-nil}
use rules_enrichment_daemon.Prelude.{
  ℕ, ◌+◌, ◌<◌, String, ◌≡◌, refl, ◌≢◌, ◌∙◌, ap, Bool, true, false, not, ◌&&◌, none, some, List, ltb,
  length, All, map, arith, eq_iff, Bool-cases, ◌⊎◌, inl, inr,
}
use rules_enrichment_daemon.Prelude.Distinct.{AllDistinct}
use rules_enrichment_daemon.Domain.Errors.{Error, ok, err}
use rules_enrichment_daemon.Domain.Datetime.{Datetime}
use rules_enrichment_daemon.Persistence.Models.{Tables, EnrichmentRuleModel, with_rows}
use rules_enrichment_daemon.Persistence.Mappers.{rule_row}
use rules_enrichment_daemon.Persistence.Session.{open_session}
use rules_enrichment_daemon.Persistence.Session.Transactions.{commit-cases}
use rules_enrichment_daemon.Persistence.Repositories.{find_row, select_rules, list_active_rules}
use rules_enrichment_daemon.Persistence.Repositories.Upserts.{
  find_rule, rule_rows, upserted, upsert_many-eq, upserted_ne, upserted_finds, differing,
  upserted-committed,
}
use rules_enrichment_daemon.Application.Environment.{Env, World, read_clock, in_uow}
use rules_enrichment_daemon.Domain.Order.{is_member}
use rules_enrichment_daemon.Cli.{
  baseline_rules, count_active, skipped, seeded, insert_baseline, insert_and_report, seed_rules,
}

-- the table has the rules, and every id that is not theirs has the row that it had
pub record HasBaseline (now : Datetime) (old new : List EnrichmentRuleModel) : Type 0 where
  pub present : All (λ r. find_rule r.rule_id new ≡ some (rule_row r)) (baseline_rules now)
  pub rest :
      (k : String)
      → (is_member k (map (λ r. r.rule_id) (baseline_rules now)) ≡ true)
        ⊎ (find_rule k new ≡ find_rule k old)

ids_differ : ◌≢◌ {A = String} "RULE-DEST-ES-001" "RULE-ORIGIN-ROMA-002"
ids_differ = ground (arith, eq_iff "RULE-DEST-ES-001" "RULE-ORIGIN-ROMA-002")

baseline_rules-AllDistinct : (now : Datetime) → AllDistinct (λ r. r.rule_id) (baseline_rules now)
baseline_rules-AllDistinct now = ((ids_differ, tt), (tt, tt))

upserted-HasBaseline :
    (now : Datetime) (t : Tables)
    → HasBaseline now t.enrichment_rules
        (rule_rows (upserted (baseline_rules now) (open_session t)))
unfolding find_row
upserted-HasBaseline now t = record {
  present =
      upserted_finds (baseline_rules now) (open_session t) (baseline_rules-AllDistinct now)
        (refl, (refl, tt));
  rest = λ k. elim (Bool-cases (is_member k (map (λ r. r.rule_id) (baseline_rules now)))) [
    | inl among ↦ inl among
    | inr apart ↦ inr (
        upserted_ne k (baseline_rules now) (open_session t) (differing k (baseline_rules now) apart)
        ∙ ap (find_rule k) (append-nil t.enrichment_rules))
  ];
}

-- how many rules of the table are active when seeding starts
abbrev pub active_count : Env → World → ℕ
active_count env w =
    length (select_rules (env.clock w.clock_readings) none none none w.tables.enrichment_rules)

-- how seeding can end: what it answers, what is in the tables, and when it may end so
pub data Outcome (env : Env) (force : Bool) (w : World) : Type 0 where
  -- rules are active, so nothing is written
  left_alone :
      force ≡ false
      → 0 < active_count env w
      → seed_rules env force w
        ≡ (ok (skipped (active_count env w)), record w { clock_readings = w.clock_readings + 1 })
      → Outcome env force w
  -- the baseline is there
  written :
      (force ≡ true) ⊎ (active_count env w ≡ 0)
      → (seed_rules env force w).0 ≡ ok seeded
      → HasBaseline
          (env.clock (w.clock_readings + 1))
          w.tables.enrichment_rules
          (seed_rules env force w).1.tables.enrichment_rules
      → Outcome env force w
  -- the commit raised
  undone :
      (e : Error)
      → (force ≡ true) ⊎ (active_count env w ≡ 0)
      → (seed_rules env force w).0 ≡ err e
      → (seed_rules env force w).1.tables ≡ w.tables
      → Outcome env force w

goes_on : (n : ℕ) (force : Bool) → ltb 0 n && not force ≡ false → (force ≡ true) ⊎ (n ≡ 0)
goes_on n true free = inl refl
goes_on n false free = inr (ground arith)

module _ (env : Env) where
  insert_baseline-cases :
      (now : Datetime) (w : World)
      → ((t : Tables) × (insert_baseline env now w ≡ (ok tt, record w { tables = t }))
          × HasBaseline now w.tables.enrichment_rules t.enrichment_rules)
        ⊎ ((e : Error) × (insert_baseline env now w ≡ (err e, w)))
  unfolding insert_baseline in_uow
  insert_baseline-cases now w =
      let s = upserted (baseline_rules now) (open_session w.tables) in
      elim (commit-cases env.database s) [
        | inl stored ↦ inl (
          with_rows s.loaded s.added,
          rw (upsert_many-eq, stored) refl,
          upserted-HasBaseline now w.tables,
        )
        | inr (e, raised) ↦ inr (e, rw (upsert_many-eq, raised, upserted-committed) refl)
      ]

  -- Seeding without `force` when rules are active answers with their number and changes nothing but
  -- the readings of the clock. Only with `force`, or when no rule is active, it goes on: it leaves
  -- the baseline rules in the table, each under its id and in place of an older row with that id,
  -- with all other rows as they were, or raises and leaves the tables alone.
  pub seed_rules-Outcome : (force : Bool) (w : World) → Outcome env force w
  unfolding seed_rules insert_and_report count_active read_clock in_uow list_active_rules
  seed_rules-Outcome force w =
      let now = env.clock (w.clock_readings + 1) in
      let w2 = record w { clock_readings = w.clock_readings + 1 + 1 } in
      elim (Bool-cases (ltb 0 (active_count env w) && not force)) [
        | inl busy ↦ left_alone (ground arith) (ground arith) (rw busy refl)
        | inr free ↦
            let may = goes_on (active_count env w) force free in
            elim (insert_baseline-cases now w2) [
              | inl (t, stored, has) ↦ written may (rw (free, stored) refl) (rw (free, stored) has)
              | inr (e, raised) ↦ undone e may (rw (free, raised) refl) (rw (free, raised) refl)
            ]
      ]
