-- ===== src/Application/Payload.antt =====
-- The enrichment payload: dto/enrichment.py, builders/enrichment_payload_builder.py,
-- use_cases/build_enrichment_payload.py, mappers/payload_mapper.py and
-- use_cases/submit_enrichment.py; and domain/services/enrichment_hash_service.py.
pub mod Hash
use rules_enrichment_daemon.Prelude.{ℕ, ◌+◌, String, List, [], ◌∷◌, ◌++◌, if◌then◌else◌}
use rules_enrichment_daemon.Prelude.Int.{pos}
use rules_enrichment_daemon.Domain.Errors.{Result, ok, err, type_error}
use rules_enrichment_daemon.Domain.Json.{
  str, int, arr, obj, Items, nil, cons, Fields, end, field, is_serializable,
}
use rules_enrichment_daemon.Domain.Json.Canonical.{canonical}
use rules_enrichment_daemon.Domain.Order.{ExternalOrder}
use rules_enrichment_daemon.Domain.Value.{Runtime}
use rules_enrichment_daemon.Domain.Evaluation.{EnrichmentDecision}
use rules_enrichment_daemon.Application.Environment.{Env, Action}

pub record EnrichmentPayloadDto : Type 0 where
  pub correlation_id : String
  pub source_system : String
  pub enrichment_version : ℕ
  pub applied_rules : List Fields
  pub enriched_fields : Fields

pub record EnrichmentPayloadBuilder : Type 0 where
  pub correlation_id : String
  pub source_system : String
  pub enrichment_version : ℕ

unfoldable pub build : EnrichmentPayloadBuilder → EnrichmentDecision → EnrichmentPayloadDto
build b decision = record {
  correlation_id = b.correlation_id;
  source_system = b.source_system;
  enrichment_version = b.enrichment_version;
  applied_rules = decision.applied_rule_details;
  enriched_fields = decision.enriched_fields;
}

-- `BuildEnrichmentPayloadUseCase.execute`
unfoldable pub build_payload : String → ℕ → String → EnrichmentDecision → EnrichmentPayloadDto
unfolding build
build_payload source_system enrichment_version correlation_id decision =
    build
      (record {
        correlation_id = correlation_id;
        source_system = source_system;
        enrichment_version = enrichment_version;
      })
      decision

unfoldable pub dicts : List Fields → Items
dicts [] = nil
dicts (d ∷ ds) = cons (obj d) (dicts ds)

unfoldable pub payload_to_dict : EnrichmentPayloadDto → Fields
unfolding dicts
payload_to_dict p = field "correlation_id" (str p.correlation_id) (
    field "source_system" (str p.source_system) (
      field "enrichment_version" (int (pos p.enrichment_version)) (
        field "applied_rules" (arr (dicts p.applied_rules))
          (field "enriched_fields" (obj p.enriched_fields) end))))

-- `SubmitEnrichmentUseCase.execute`
unfoldable pub submit_enrichment : Env → String → EnrichmentPayloadDto → String → Action (Unit {0})
submit_enrichment env order_id payload correlation_id w = (
  env.submit w.calls order_id (payload_to_dict payload) correlation_id,
  record w {
    calls = w.calls + 1;
    submissions =
        w.submissions
        ++ record {
          order_id = order_id;
          payload = payload_to_dict payload;
          correlation_id = correlation_id;
        }
          ∷ [];
  },
)

-- `EnrichmentHashService.compute`; `json.dumps` refuses what is not serializable
unfoldable pub compute_hash : Runtime → ExternalOrder → Fields → Result String
compute_hash rt order enriched_fields =
    let payload = obj (
      field "order_id" (str order.order_id) (
        field "order_updated_at" (str (rt.isoformat order.updated_at))
          (field "enriched_fields" (obj enriched_fields) end))) in
    if is_serializable payload then ok (rt.digest (canonical payload)) else err type_error
