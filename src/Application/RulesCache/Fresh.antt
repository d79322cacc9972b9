-- ===== src/Application/RulesCache/Fresh.antt =====
-- The rules that the cache answers are those the table has, as of at most the time to live ago.
use rules_enrichment_daemon.Prelude.{
  ℕ, String, ◌≡◌, refl, ap, ◌∙◌, sym, Bool, true, false, ◌&&◌, Option, none, some, List, [], ◌∷◌,
  All, inl, inr, Bool-cases, Option-cases, arith, if◌then◌else◌, eq_iff,
}
use mathlib.Core.Path.{subst}
use rules_enrichment_daemon.Prelude.Int.{◌-ℤ◌}
use rules_enrichment_daemon.Domain.Errors.{ok}
use rules_enrichment_daemon.Domain.Datetime.{Datetime}
use rules_enrichment_daemon.Domain.Rule.{EnrichmentRule}
use rules_enrichment_daemon.Persistence.Models.{EnrichmentRuleModel}
use rules_enrichment_daemon.Persistence.Repositories.{select_rules, list_active_rules}
use rules_enrichment_daemon.Application.Environment.{in_uow}
use rules_enrichment_daemon.Application.RulesCache.{
  Scope, Entry, Daemon, same_text, same_scope, find_entry, is_fresh, usable, refresh_rules,
}

-- the rules of the table for a scope at a time
abbrev pub rules_at : Datetime → Scope → List EnrichmentRuleModel → List EnrichmentRule
rules_at now scope rows =
    select_rules now scope.client_code scope.facility_code scope.zone_code rows

-- every entry holds what the table has for its scope at its time
abbrev pub IsCurrent : List EnrichmentRuleModel → List Entry → Type 0
IsCurrent rows cache = All (λ e. e.rules ≡ rules_at e.loaded_at e.scope rows) cache

and_parts : (a b : Bool) → (a && b) ≡ true → (a ≡ true) × (b ≡ true)
and_parts true b h = (refl, h)
and_parts false b h = cc

same_text-eq : (a b : Option String) → same_text a b ≡ true → a ≡ b
same_text-eq none none h = refl
same_text-eq none (some t) h = cc
same_text-eq (some s) none h = cc
same_text-eq (some s) (some t) h = ap some ((eq_iff s t).0 h)

same_scope-eq : (a b : Scope) → same_scope a b ≡ true → a ≡ b
unfolding same_scope
same_scope-eq a b h =
    let (both, zone) =
      and_parts (same_text a.client_code b.client_code && same_text a.facility_code b.facility_code)
        (same_text a.zone_code b.zone_code) h in
    let (client, facility) =
      and_parts (same_text a.client_code b.client_code) (same_text a.facility_code b.facility_code)
        both in
    λ i. record {
      client_code = same_text-eq a.client_code b.client_code client i;
      facility_code = same_text-eq a.facility_code b.facility_code facility i;
      zone_code = same_text-eq a.zone_code b.zone_code zone i;
    }

usable_entry :
    (ttl_seconds : ℕ) (now : Datetime) (x : Entry) {e : Entry}
    → usable ttl_seconds now (some x) ≡ some e
    → (x ≡ e) × (is_fresh ttl_seconds now x.loaded_at ≡ true)
unfolding usable
usable_entry ttl_seconds now x h = elim (Bool-cases (is_fresh ttl_seconds now x.loaded_at)) [
  | inl fresh ↦ (cc, fresh)
  | inr stale ↦ cc
]

-- what is known of an entry that answers
usable-some :
    (ttl_seconds : ℕ) (now : Datetime) (scope : Scope) (rows : List EnrichmentRuleModel)
    (cache : List Entry) {e : Entry}
    → IsCurrent rows cache
    → usable ttl_seconds now (find_entry scope cache) ≡ some e
    → (e.rules ≡ rules_at e.loaded_at e.scope rows)
      × (e.scope ≡ scope)
      × (is_fresh ttl_seconds now e.loaded_at ≡ true)
unfolding usable find_entry
usable-some ttl_seconds now scope rows [] current h = cc
usable-some ttl_seconds now scope rows (x ∷ xs) {e} current h =
    let choose = λ (b : Bool). usable ttl_seconds now (if b then some x else find_entry scope xs) in
    elim (Bool-cases (same_scope x.scope scope)) [
      | inl same ↦
          let (is_x, fresh) = usable_entry ttl_seconds now x (ap choose (sym same) ∙ h) in
          subst
            (λ (y : Entry).
              (y.rules ≡ rules_at y.loaded_at y.scope rows)
              × (y.scope ≡ scope)
              × (is_fresh ttl_seconds now y.loaded_at ≡ true))
            is_x (current.0, same_scope-eq x.scope scope same, fresh)
      | inr differs ↦
          usable-some ttl_seconds now scope rows xs current.1 (ap choose (sym differs) ∙ h)
    ]

is_fresh_self : (ttl_seconds : ℕ) (now : Datetime) → is_fresh ttl_seconds now now ≡ true
unfolding is_fresh ◌-ℤ◌
is_fresh_self ttl_seconds now = ground arith

module _ (now : Datetime) (ttl_seconds : ℕ) (scope : Scope) (rows : List EnrichmentRuleModel) where
  -- Asking for the rules of a scope gives those that the table has for it as of some time at most
  -- `ttl_seconds` before now, if the cache holds what the table has. It changes only the cache,
  -- which goes on holding what the table has.
  pub refresh_rules-IsCurrent :
      (d : Daemon)
      → IsCurrent rows d.cache
      → d.world.tables.enrichment_rules ≡ rows
      → (ts : Datetime) × (cache' : List Entry) × (refresh_rules now ttl_seconds scope d
          ≡ (ok (rules_at ts scope rows), record { world = d.world; cache = cache' }))
        × (is_fresh ttl_seconds now ts ≡ true)
        × IsCurrent rows cache'
  unfolding refresh_rules in_uow list_active_rules
  refresh_rules-IsCurrent d current same =
      elim (Option-cases (usable ttl_seconds now (find_entry scope d.cache))) [
        | inl missing ↦ (
          now,
          record { scope = scope; loaded_at = now; rules = rules_at now scope rows } ∷ d.cache,
          rw (missing, same) refl,
          is_fresh_self ttl_seconds now,
          (refl, current),
        )
        | inr (e, found) ↦
            let (rules, scoped, fresh) =
              usable-some ttl_seconds now scope rows d.cache current found in
            (e.loaded_at, d.cache, rw (found, rules, scoped) refl, fresh, current)
      ]
