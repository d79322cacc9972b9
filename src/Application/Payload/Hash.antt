-- ===== src/Application/Payload/Hash.antt =====
-- domain/services/enrichment_hash_service.py: what the hash of an enrichment depends on.
use mathlib.Core.Option
use rules_enrichment_daemon.Prelude.{
  String, ◌≡◌, refl, ◌∙◌, ap, sym, Option, Bool-cases, inl, inr, if◌then◌else◌,
}
use rules_enrichment_daemon.Prelude.TextOrder.{precedes}
use rules_enrichment_daemon.Domain.Errors.{ok, err, type_error}
use rules_enrichment_daemon.Domain.Json.{
  Json, str, obj, Fields, end, field, is_serializable, fields_serializable,
}
use rules_enrichment_daemon.Domain.Json.Dict.{get, get_or_null, HasUniqueKeys}
use rules_enrichment_daemon.Domain.Json.Canonical.{
  canonical, canonical_fields, insert_field, canonical_fields-same, canonical_fields-serializable,
  get-canonical_fields,
}
use rules_enrichment_daemon.Domain.Order.{ExternalOrder}
use rules_enrichment_daemon.Domain.Value.{Runtime}
use rules_enrichment_daemon.Application.Payload.{compute_hash}

-- the text that is hashed, as the value that it is written from
abbrev pub hashed_value : Runtime → ExternalOrder → Fields → Json
hashed_value rt order fields = obj (
    field "enriched_fields" (obj (canonical_fields fields)) (
      field "order_id" (str order.order_id)
        (field "order_updated_at" (str (rt.isoformat order.updated_at)) end)))

compute_hash-eq :
    (rt : Runtime) (order : ExternalOrder) (fields : Fields)
    → compute_hash rt order fields ≡ (
        if fields_serializable fields
        then ok (rt.digest (hashed_value rt order fields))
        else err type_error)
unfolding compute_hash canonical insert_field precedes is_serializable
compute_hash-eq rt order fields = elim (Bool-cases (fields_serializable fields)) [
  | inl fine ↦ rw fine refl
  | inr bad ↦ rw bad refl
]

-- Enrichments without a repeated key that hold the same under every key have the same hash, in
-- whatever order the rules have set them.
pub compute_hash-same :
    (rt : Runtime) (order : ExternalOrder) (fs gs : Fields)
    → HasUniqueKeys fs
    → HasUniqueKeys gs
    → ((key : String) → get key fs ≡ get key gs)
    → compute_hash rt order fs ≡ compute_hash rt order gs
compute_hash-same rt order fs gs unique unique' same =
    let sorted = canonical_fields-same fs gs unique unique' same in
    let fine : fields_serializable fs ≡ fields_serializable gs =
      sym (canonical_fields-serializable fs)
      ∙ ap fields_serializable sorted
      ∙ canonical_fields-serializable gs in
    compute_hash-eq rt order fs ∙ rw (fine, sorted) (sym (compute_hash-eq rt order gs))

-- the entry of a dict that is a dict
abbrev entry_at : String → Json → Option Json
entry_at key (obj fs) = get key fs
entry_at key v = Option.none

abbrev fields_at : String → Json → Json
fields_at key (obj fs) = get_or_null key fs
fields_at key v = Json.null

abbrev text_of : Json → String
text_of (str s) = s
text_of v = ""

compute_hash-digest :
    (rt : Runtime) (order : ExternalOrder) (fields : Fields) {hash : String}
    → compute_hash rt order fields ≡ ok hash
    → rt.digest (hashed_value rt order fields) ≡ hash
compute_hash-digest rt order fields {hash} h = elim (Bool-cases (fields_serializable fields)) [
  | inl fine ↦
      let done : ok (rt.digest (hashed_value rt order fields)) ≡ ok hash =
        sym (compute_hash-eq rt order fields ∙ rw fine refl) ∙ h in
      cc
  | inr bad ↦
      let failed : err type_error ≡ ok hash =
        sym (compute_hash-eq rt order fields ∙ rw bad refl) ∙ h in
      cc
]

-- Equal hashes come from the same data, if the digest does not collide on it: the orders have the same id
-- and the same text of their update time, and the enrichments have under every key the same value, up
-- to the order of its entries.
pub compute_hash_injective :
    (rt : Runtime) (a b : ExternalOrder) (fs gs : Fields) {hash : String}
    → (rt.digest (hashed_value rt a fs) ≡ rt.digest (hashed_value rt b gs)
        → hashed_value rt a fs ≡ hashed_value rt b gs)
    → compute_hash rt a fs ≡ ok hash
    → compute_hash rt b gs ≡ ok hash
    → (a.order_id ≡ b.order_id)
      × (rt.isoformat a.updated_at ≡ rt.isoformat b.updated_at)
      × ((key : String) → Option.map canonical (get key fs) ≡ Option.map canonical (get key gs))
unfolding get get_or_null
compute_hash_injective rt a b fs gs {hash} collision_free left right =
    let same : hashed_value rt a fs ≡ hashed_value rt b gs =
      collision_free (compute_hash-digest rt a fs left ∙ sym (compute_hash-digest rt b gs right)) in
    (
      ap (λ v. text_of (fields_at "order_id" v)) same,
      ap (λ v. text_of (fields_at "order_updated_at" v)) same,
      λ key.
          sym (get-canonical_fields key fs)
          ∙ ap (λ v. entry_at key (fields_at "enriched_fields" v)) same
          ∙ get-canonical_fields key gs,
    )
