-- ===== src/Tests/Ports.antt =====
-- The hash of an enrichment, and the use cases over the ports.
use mathlib.Core.Option
use rules_enrichment_daemon.Prelude.{
  ◌+◌, String, ◌≡◌, ◌≢◌, refl, true, some, str_eq, eq_iff, arith, if◌then◌else◌,
}
use rules_enrichment_daemon.Domain.Errors.{ok}
use rules_enrichment_daemon.Domain.Json.{str, Fields, end, field, is_serializable}
use rules_enrichment_daemon.Domain.Json.Dict.{get, HasUniqueKeys}
use rules_enrichment_daemon.Domain.Json.Canonical.{canonical, insert_field}
use rules_enrichment_daemon.Prelude.TextOrder.{precedes}
use rules_enrichment_daemon.Persistence.Models.{Tables, no_rows}
use rules_enrichment_daemon.Persistence.Session.{
  commit, violates_keys, has_duplicate, all_serializable,
}
use rules_enrichment_daemon.Domain.Order.{is_member}
use rules_enrichment_daemon.Persistence.Repositories.{
  save_attempt, save_processed, enqueue, find_row,
}
use rules_enrichment_daemon.Persistence.UnitOfWork.{sql_unit_of_work}
use rules_enrichment_daemon.Persistence.UnitOfWork.Lawful.{sql_unit_of_work-IsLawful}
use rules_enrichment_daemon.Application.Payload.{compute_hash}
use rules_enrichment_daemon.Application.Payload.Hash.{compute_hash-same, compute_hash_injective}
use rules_enrichment_daemon.Application.Ports.{UnitOfWork, within}
use rules_enrichment_daemon.Application.Ports.Laws.{IsLawful}
use rules_enrichment_daemon.Application.Recording.{ProcessingResult, processed_of}
use rules_enrichment_daemon.Application.Recording.Ported.{
  persist_block, get-persist_block, next-persist_block,
}
use rules_enrichment_daemon.Persistence.Repositories.{get_next_attempt_number, max_attempt}
use rules_enrichment_daemon.Tests.Samples.{runtime, utc, sample_order, sample_env}

abbrev lane_first : Fields
lane_first = field "lane" (str "ES01") (field "code" (str "STANDARD") end)

abbrev code_first : Fields
code_first = field "code" (str "STANDARD") (field "lane" (str "ES01") end)

lane_first-HasUniqueKeys : HasUniqueKeys lane_first
unfolding get
lane_first-HasUniqueKeys = (refl, (refl, tt))

code_first-HasUniqueKeys : HasUniqueKeys code_first
unfolding get
code_first-HasUniqueKeys = (refl, (refl, tt))

names_differ : ◌≢◌ {A = String} "lane" "code"
names_differ = ground (arith, eq_iff "lane" "code")

same_entries : (key : String) → get key lane_first ≡ get key code_first
unfolding get
same_entries key = ground (arith, eq_iff "lane" key, eq_iff "code" key, names_differ)

compute_hash-same_example :
    compute_hash runtime sample_order lane_first ≡ compute_hash runtime sample_order code_first
compute_hash-same_example =
    compute_hash-same runtime sample_order lane_first code_first lane_first-HasUniqueKeys
      code_first-HasUniqueKeys same_entries

lane_hash : compute_hash runtime sample_order lane_first ≡ ok "digest"
unfolding compute_hash is_serializable
lane_hash = refl

code_hash : compute_hash runtime sample_order code_first ≡ ok "digest"
unfolding compute_hash is_serializable
code_hash = refl

compute_hash_injective_example :
    (sample_order.order_id ≡ sample_order.order_id)
    × (runtime.isoformat sample_order.updated_at ≡ runtime.isoformat sample_order.updated_at)
    × ((key : String)
        → Option.map canonical (get key lane_first) ≡ Option.map canonical (get key code_first))
unfolding canonical insert_field precedes
compute_hash_injective_example =
    compute_hash_injective runtime sample_order sample_order lane_first code_first (λ same. refl)
      lane_hash code_hash

abbrev sql : UnitOfWork
sql = sql_unit_of_work sample_env.database

sql_unit_of_work-IsLawful_example : IsLawful sql
sql_unit_of_work-IsLawful_example = sql_unit_of_work-IsLawful sample_env.database

abbrev won : ProcessingResult
won = record {
  order_id = "ORD-1";
  correlation_id = "run-1";
  attempt_number = 1;
  enrichment_hash = "digest";
  success = true;
  now = utc 500;
  event_payload = end;
}

-- the tables that the result leaves
abbrev behind : Tables
behind = (within sql (persist_block sql won) no_rows).1

won_returns : within sql (persist_block sql won) no_rows ≡ (ok tt, behind)
unfolding persist_block commit save_attempt save_processed enqueue find_row violates_keys
    has_duplicate all_serializable is_member is_serializable
won_returns = refl

get-persist_block_example : (within sql (sql.processed_orders.get_by_order_id "ORD-2") behind).0 ≡ (
    if str_eq "ORD-1" "ORD-2"
    then ok (some (processed_of won))
    else (within sql (sql.processed_orders.get_by_order_id "ORD-2") no_rows).0)
get-persist_block_example =
    get-persist_block sql (sql_unit_of_work-IsLawful sample_env.database) won no_rows behind refl
      won_returns "ORD-2"

no_attempts : (within sql (sql.attempts.get_next_attempt_number "ORD-1") no_rows).0 ≡ ok 1
unfolding get_next_attempt_number max_attempt
no_attempts = refl

next-persist_block_example :
    (within sql (sql.attempts.get_next_attempt_number "ORD-1") behind).0 ≡ (
      if str_eq "ORD-1" "ORD-1"
      then ok (1 + 1)
      else (within sql (sql.attempts.get_next_attempt_number "ORD-1") no_rows).0)
next-persist_block_example =
    next-persist_block sql (sql_unit_of_work-IsLawful sample_env.database) won no_rows behind
      no_attempts refl won_returns "ORD-1"
