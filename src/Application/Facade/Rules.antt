-- ===== src/Application/Facade/Rules.antt =====
-- What a polling cycle does to the rules and to the cache.
use rules_enrichment_daemon.Prelude.{ℕ, ◌≡◌, ◌∙◌, Option, List, inl, inr}
use rules_enrichment_daemon.Domain.Datetime.{Datetime}
use rules_enrichment_daemon.Exec.Keeps.{Keeps}
use rules_enrichment_daemon.Persistence.Models.{EnrichmentRuleModel}
use rules_enrichment_daemon.Application.Environment.{Env, World, Action}
use rules_enrichment_daemon.Application.Recording.{ProcessingResult, persist}
use rules_enrichment_daemon.Application.Recording.Atomic.{persist-cases, recorded_rules}
use rules_enrichment_daemon.Application.RulesCache.{Scope, Daemon, refresh_rules}
use rules_enrichment_daemon.Application.RulesCache.Fresh.{IsCurrent, refresh_rules-IsCurrent}
use rules_enrichment_daemon.Application.Facade.Keeping.{process_order-Keeps, Keeps-run_once}
use rules_enrichment_daemon.Application.Facade.{FacadeSettings, in_world, run_once}

module _ (rows : List EnrichmentRuleModel) where
  -- the table of rules
  abbrev HasRules : World → Type 0
  HasRules w = w.tables.enrichment_rules ≡ rows

  -- and a cache that holds what the table has
  abbrev pub IsTrue : Daemon → Type 0
  IsTrue d = HasRules d.world × IsCurrent rows d.cache

  Keeps-in_world : {A : Type 0} (m : Action A) → Keeps HasRules m → Keeps IsTrue (in_world m)
  Keeps-in_world m kept = record { stays = λ d h. (kept.stays d.world h.0, h.1) }

  Keeps-refresh :
      (now : Datetime) (ttl_seconds : ℕ) (scope : Scope)
      → Keeps IsTrue (refresh_rules now ttl_seconds scope)
  Keeps-refresh now ttl_seconds scope = record {
    stays = λ d h.
        let (ts, cache', ran, fresh, current) =
          refresh_rules-IsCurrent now ttl_seconds scope rows d h.1 h.0 in
        rw ran (h.0, current);
  }

  Keeps-persist : (env : Env) (r : ProcessingResult) → Keeps HasRules (persist env r)
  Keeps-persist env r = record {
    stays = λ w h. elim (persist-cases env r w) [
      | inl stored ↦ rw stored (recorded_rules r w.tables ∙ h)
      | inr (e, raised) ↦ rw raised h
    ];
  }

  module _ (env : Env) (settings : FacadeSettings) where
    -- Whatever a polling cycle does, and also if it raises, the table of rules stays as it is and
    -- every entry of the cache goes on holding what the table has for its scope at its time.
    pub run_once-IsTrue :
        (updated_since : Option Datetime) (d : Daemon)
        → IsTrue d
        → IsTrue (run_once env settings updated_since d).1
    run_once-IsTrue updated_since d h =
        (Keeps-run_once env settings (λ t ds. t.enrichment_rules ≡ rows) IsTrue
            (process_order-Keeps env settings.process (λ t ds. t.enrichment_rules ≡ rows)
              (Keeps-persist env))
            (λ A m. Keeps-in_world m)
            (λ now scope. Keeps-refresh now settings.rule_cache_ttl_seconds scope)
            updated_since).stays
          d h
