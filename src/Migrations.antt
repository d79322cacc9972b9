-- ===== src/Migrations.antt =====
-- migrations/versions: what the two migrations that seed rules share.
pub mod Bulk
pub mod Longtail
pub mod Schema
pub mod Harmless
pub mod Numbering
pub mod RoundTrip
use Prim.Native.String.{◌++◌}
use rules_enrichment_daemon.Prelude.{
  ℕ, zero, suc, ◌+◌, ◌*◌, ◌/◌, ◌%◌, String, Bool, true, false, not, ◌==◌, Option, none, some, List,
  [], ◌∷◌, map, filter, if◌then◌else◌,
}
use rules_enrichment_daemon.Prelude as Prelude
use rules_enrichment_daemon.Prelude.Int.{ℤ, pos, ◌+ℤ◌, ◌-ℤ◌}
use rules_enrichment_daemon.Prelude.Text.{starts_with}
use rules_enrichment_daemon.Domain.Datetime.{Datetime}
use rules_enrichment_daemon.Domain.Errors.{Result, ok, err, integrity_error}
use rules_enrichment_daemon.Domain.Json.{Json, str, arr, obj, Items, nil, cons, Fields, end, field}
use rules_enrichment_daemon.Persistence.Models.{EnrichmentRuleModel}
use rules_enrichment_daemon.Persistence.Session.{has_duplicate}

-- `texts[n]` of an index within the list
abbrev pub item_at : List String → ℕ → String
item_at [] n = ""
item_at (t ∷ ts) zero = t
item_at (t ∷ ts) (suc n) = item_at ts n

abbrev pub digits : List String
digits = "0" ∷ "1" ∷ "2" ∷ "3" ∷ "4" ∷ "5" ∷ "6" ∷ "7" ∷ "8" ∷ "9" ∷ []

-- `f"{n:0wd}"` of a number of at most `w` digits
unfoldable pub padded : ℕ → ℕ → String
padded zero n = ""
padded (suc w) n = padded w (n / 10) ++ item_at digits (n % 10)

-- a day in microseconds
abbrev pub day : ℕ
day = 86400000000

-- `now - timedelta(days=n)` and `now + timedelta(days=n)`
abbrev pub days_before : Datetime → ℕ → Datetime
days_before now n = record now { wall = now.wall -ℤ pos (n * day) }

abbrev pub days_after : Datetime → ℕ → Datetime
days_after now n = record now { wall = now.wall +ℤ pos (n * day) }

-- `{"field": path, "op": op, "value": value}`
abbrev pub test : String → String → Json → Json
test path op value = obj (field "field" (str path) (field "op" (str op) (field "value" value end)))

-- `f"SIMC-{client:03d}"`
abbrev pub client_code_of : ℕ → String
client_code_of client = "SIMC-" ++ padded 3 client

-- `f"SIMF-{client:03d}-{facility:02d}"`
abbrev pub facility_code_of : ℕ → ℕ → String
facility_code_of client facility = "SIMF-" ++ padded 3 client ++ "-" ++ padded 2 facility

-- `[row(i) for i in range(first, first + n)]`
unfoldable pub rows_from : (ℕ → EnrichmentRuleModel) → ℕ → ℕ → List EnrichmentRuleModel
rows_from row first zero = []
rows_from row first (suc n) = row first ∷ rows_from row (first + 1) n

-- `op.bulk_insert`: all rows, or none if a primary key is there twice
unfoldable pub bulk_insert :
    List EnrichmentRuleModel → List EnrichmentRuleModel → Result (List EnrichmentRuleModel)
bulk_insert rows table =
    if has_duplicate (map (λ r. r.rule_id) (Prelude.◌++◌ table rows))
    then err integrity_error
    else ok (Prelude.◌++◌ table rows)

-- `DELETE FROM enrichment_rules WHERE rule_id LIKE 'prefix%'` on PostgreSQL
unfoldable pub delete_like : String → List EnrichmentRuleModel → List EnrichmentRuleModel
unfolding starts_with
delete_like prefix = filter (λ r. not (starts_with r.rule_id prefix))
