-- ===== src/Application/RulesCache.antt =====
-- use_cases/refresh_rules_cache.py: the rules of each scope are kept for some seconds. The cache is
-- the use case's own and lives as long as the daemon.
pub mod Fresh
use rules_enrichment_daemon.Prelude.{
  ℕ, ◌*◌, String, Bool, true, false, ◌&&◌, Option, none, some, List, [], ◌∷◌, str_eq, if◌then◌else◌,
}
use rules_enrichment_daemon.Prelude.Int.{pos, ◌-ℤ◌, leb_ℤ}
use rules_enrichment_daemon.Domain.Errors.{Result, ok, err}
use rules_enrichment_daemon.Domain.Datetime.{Datetime, instant}
use rules_enrichment_daemon.Domain.Rule.{EnrichmentRule}
use rules_enrichment_daemon.Exec.{Exec}
use rules_enrichment_daemon.Persistence.Repositories.{list_active_rules}
use rules_enrichment_daemon.Application.Environment.{Env, World, Action, in_uow}

pub record Scope : Type 0 where
  pub client_code : Option String
  pub facility_code : Option String
  pub zone_code : Option String

pub record Entry : Type 0 where
  pub scope : Scope
  pub loaded_at : Datetime
  pub rules : List EnrichmentRule

-- the daemon's memory: what is outside the process, and the dict, latest entry first
pub record Daemon : Type 0 where
  pub world : World
  pub cache : List Entry

abbrev pub same_text : Option String → Option String → Bool
same_text none none = true
same_text (some s) (some t) = str_eq s t
same_text _ _ = false

unfoldable pub same_scope : Scope → Scope → Bool
same_scope a b =
    same_text a.client_code b.client_code
    && same_text a.facility_code b.facility_code
    && same_text a.zone_code b.zone_code

-- `self._cache.get(key)`
unfoldable pub find_entry : Scope → List Entry → Option Entry
find_entry scope [] = none
find_entry scope (e ∷ es) = if same_scope e.scope scope then some e else find_entry scope es

-- `(now - ts).total_seconds() <= ttl_seconds`, in microseconds, of aware datetimes
unfoldable pub is_fresh : ℕ → Datetime → Datetime → Bool
is_fresh ttl_seconds now ts = leb_ℤ (instant now -ℤ instant ts) (pos (ttl_seconds * 1000000))

-- the entry that answers without a query
unfoldable pub usable : ℕ → Datetime → Option Entry → Option Entry
usable ttl_seconds now none = none
usable ttl_seconds now (some e) = if is_fresh ttl_seconds now e.loaded_at then some e else none

abbrev loaded :
    Datetime
    → Scope
    → List Entry
    → Result (List EnrichmentRule) × World
    → Result (List EnrichmentRule) × Daemon
loaded now scope cache (ok rules, w) = (
  ok rules,
  record { world = w; cache = record { scope = scope; loaded_at = now; rules = rules } ∷ cache },
)
loaded now scope cache (err e, w) = (err e, record { world = w; cache = cache })

abbrev pub answer : Datetime → Scope → Option Entry → Daemon → Result (List EnrichmentRule) × Daemon
answer now scope (some e) d = (ok e.rules, d)
answer now scope none d =
    loaded now scope d.cache
      (in_uow (list_active_rules now scope.client_code scope.facility_code scope.zone_code) d.world)

-- `RefreshRulesCacheUseCase.execute`
unfoldable pub refresh_rules : Datetime → ℕ → Scope → Exec Daemon (List EnrichmentRule)
refresh_rules now ttl_seconds scope d =
    answer now scope (usable ttl_seconds now (find_entry scope d.cache)) d
