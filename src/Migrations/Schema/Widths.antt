-- ===== src/Migrations/Schema/Widths.antt =====
-- Which rows of the outbox fit the widths that the first migration gives its columns.
use Prim.Native.String.{◌++◌, count}
use text.Mathlib.TextLemmas.{length-append}
use rules_enrichment_daemon.Prelude.{
  ℕ, ◌+◌, ◌≤◌, String, Bool, true, false, ◌≡◌, ◌↔◌, str_eq, List, [], ◌∷◌, arith, if◌then◌else◌,
}
use rules_enrichment_daemon.Persistence.Models.{OutboxMessageModel}
use rules_enrichment_daemon.Persistence.Mappers.{outbox_row}
use rules_enrichment_daemon.Application.Recording.{ProcessingResult, event_of}
use rules_enrichment_daemon.Migrations.Schema.{Column, column, varchar, ColumnType, outbox_messages}

abbrev width : ColumnType → ℕ
width (varchar n) = n
width _ = 0

-- the width of a text column, 0 for any other
abbrev pub width_of : String → List Column → ℕ
width_of name [] = 0
width_of name (column n type nullable ∷ columns) =
    if str_eq n name then width type else width_of name columns

-- PostgreSQL refuses a text that is longer than its column is wide
abbrev pub Fits : String → String → Type 0
Fits name value = count value ≤ width_of name outbox_messages.columns

abbrev pub FitsOutbox : OutboxMessageModel → Type 0
FitsOutbox m =
    Fits "message_id" m.message_id
    × Fits "aggregate_type" m.aggregate_type
    × Fits "aggregate_id" m.aggregate_id
    × Fits "event_type" m.event_type
    × Fits "status" m.status

count-message_id : (c o : String) → count ("outbox-" ++ c ++ "-" ++ o) ≡ 8 + count c + count o
count-message_id c o = omega (
  arith,
  length-append "outbox-" (c ++ "-" ++ o),
  length-append c ("-" ++ o),
  length-append "-" o,
)

count-event_type :
    (b : Bool) → count (if b then "OrderEnrichmentSucceeded" else "OrderEnrichmentFailed") ≤ 80
count-event_type true = omega arith
count-event_type false = omega arith

-- The event of a result fits the columns of the outbox exactly when its order id has at most 76
-- characters, if the correlation id is a UUID of 36.
pub event_of-fits_iff :
    (r : ProcessingResult)
    → count r.correlation_id ≡ 36
    → FitsOutbox (outbox_row (event_of r)) ↔ (count r.order_id ≤ 76)
unfolding outbox_row
event_of-fits_iff r uuid =
    let long = count-message_id r.correlation_id r.order_id in
    (
      λ fits. omega (arith, fits.0, long, uuid),
      λ short. (
        omega (arith, long, uuid, short),
        omega arith,
        omega (arith, short),
        count-event_type r.success,
        omega arith,
      ),
    )
