-- ===== src/Domain/Json/Canonical.antt =====
-- `json.dumps(value, sort_keys=True)`: the entries of every dict in the order of their keys.
use mathlib.Core.Path.{subst}
use mathlib.Core.Option
use rules_enrichment_daemon.Prelude.{
  String, ◌≡◌, refl, ◌≢◌, ◌∙◌, ap, sym, Bool, true, false, ◌&&◌, none, some, arith, eq_iff, str_eq,
  Bool-cases, inl, inr, if◌then◌else◌, eq_refl,
}
use rules_enrichment_daemon.Prelude.TextOrder.{
  precedes, precedes-between, precedes-total, precedes-same,
}
use rules_enrichment_daemon.Domain.Json.{
  Json, arr, obj, Items, nil, cons, Fields, end, field, is_serializable, items_serializable,
  fields_serializable,
}
use rules_enrichment_daemon.Domain.Json.Dict.{get, HasUniqueKeys}

-- an entry among sorted ones
unfoldable pub insert_field : String → Json → Fields → Fields
insert_field k v end = field k v end
insert_field k v (field j w fs) =
    if precedes j k then field j w (insert_field k v fs) else field k v (field j w fs)

unfoldable mutual
  unfolding insert_field

  pub canonical : Json → Json
  canonical (arr xs) = arr (canonical_items xs)
  canonical (obj fs) = obj (canonical_fields fs)
  canonical v = v

  pub canonical_items : Items → Items
  canonical_items nil = nil
  canonical_items (cons x xs) = cons (canonical x) (canonical_items xs)

  pub canonical_fields : Fields → Fields
  canonical_fields end = end
  canonical_fields (field k v fs) = insert_field k (canonical v) (canonical_fields fs)

-- Two entries of different keys can be inserted in either order.
insert_field_comm :
    (j k : String) (a b : Json) (fs : Fields)
    → j ≢ k
    → insert_field j a (insert_field k b fs) ≡ insert_field k b (insert_field j a fs)
unfolding insert_field
insert_field_comm j k a b end ne = ground (arith, precedes-total j k ne)
insert_field_comm j k a b (field i w fs) ne = ground (
  arith,
  precedes-total j k ne,
  precedes-between i j k,
  precedes-between i k j,
  insert_field_comm j k a b fs ne,
)

-- the dict without the entry of a key
abbrev without_key : String → Fields → Fields
without_key k end = end
without_key k (field j w fs) = if str_eq j k then fs else field j w (without_key k fs)

canonical_fields-entry :
    (k : String) (fs : Fields) {v : Json}
    → get k fs ≡ some v
    → canonical_fields fs ≡ insert_field k (canonical v) (canonical_fields (without_key k fs))
unfolding get canonical_fields
canonical_fields-entry k end h = cc
canonical_fields-entry k (field j w fs) {v} h = elim (Bool-cases (str_eq j k)) [
  | inl same ↦
      let own : j ≡ k = ground (arith, eq_iff j k) in
      let held : w ≡ v = ground arith in rw (own, held, eq_refl k) refl
  | inr other ↦
      let there : get k fs ≡ some v = ground arith in
      let apart : j ≢ k = ground (arith, eq_iff j k) in
      rw (other, canonical_fields-entry k fs there)
        (insert_field_comm j k (canonical w) (canonical v) (canonical_fields (without_key k fs))
          apart)
]

get-without_key :
    (j k : String) (fs : Fields)
    → HasUniqueKeys fs
    → get j (without_key k fs) ≡ (if str_eq k j then none else get j fs)
unfolding get
get-without_key j k end h = ground arith
get-without_key j k (field i w fs) h = ground (
  arith,
  eq_iff i k,
  eq_iff k j,
  eq_iff i j,
  get-without_key j k fs h.1,
  λ (e : i ≡ j). subst (λ key. get key fs ≡ none) e h.0,
)

without_key-HasUniqueKeys :
    (k : String) (fs : Fields) → HasUniqueKeys fs → HasUniqueKeys (without_key k fs)
unfolding get
without_key-HasUniqueKeys k end h = tt
without_key-HasUniqueKeys k (field i w fs) h = elim (Bool-cases (str_eq i k)) [
  | inl same ↦ rw same h.1
  | inr other ↦
      rw other (ground (arith, get-without_key i k fs h.1, h.0), without_key-HasUniqueKeys k fs h.1)
]

-- Dicts that hold the same under every key have the same canonical form.
pub canonical_fields-same :
    (fs gs : Fields)
    → HasUniqueKeys fs
    → HasUniqueKeys gs
    → ((key : String) → get key fs ≡ get key gs)
    → canonical_fields fs ≡ canonical_fields gs
unfolding get canonical_fields
canonical_fields-same end end h h' same = refl
canonical_fields-same end (field k v gs) h h' same =
    let missing : none ≡ some v = same k ∙ rw (eq_refl k) refl in cc
canonical_fields-same (field k v fs) gs h h' same =
    let there : get k gs ≡ some v = sym (same k) ∙ rw (eq_refl k) refl in
    let rest : (key : String) → get key fs ≡ get key (without_key k gs) = λ key. ground (
      arith,
      eq_iff k key,
      same key,
      get-without_key key k gs h',
      λ (e : k ≡ key). subst (λ j. get j fs ≡ none) e h.0,
    ) in
    ap (insert_field k (canonical v))
      (canonical_fields-same fs (without_key k gs) h.1 (without_key-HasUniqueKeys k gs h') rest)
    ∙ sym (canonical_fields-entry k gs there)

get-insert_field :
    (key k : String) (v : Json) (fs : Fields)
    → get key (insert_field k v fs) ≡ (if str_eq k key then some v else get key fs)
unfolding get insert_field
get-insert_field key k v end = refl
get-insert_field key k v (field j w fs) = ground (
  arith,
  eq_iff k key,
  eq_iff j key,
  precedes-same k,
  λ (e : j ≡ k). subst (λ i. precedes i k ≡ false) (sym e) (precedes-same k),
  get-insert_field key k v fs,
)

-- The canonical form holds under every key the canonical form of what the dict holds.
pub get-canonical_fields :
    (key : String) (fs : Fields) → get key (canonical_fields fs) ≡ Option.map canonical (get key fs)
unfolding get canonical_fields
get-canonical_fields key end = refl
get-canonical_fields key (field k v fs) =
    get-insert_field key k (canonical v) (canonical_fields fs) ∙ elim (Bool-cases (str_eq k key)) [
      | inl same ↦ rw same refl
      | inr other ↦ rw (other, get-canonical_fields key fs) refl
    ]

and_swap : (a b c : Bool) → (a && (b && c)) ≡ (b && (a && c))
and_swap true b c = refl
and_swap false true c = refl
and_swap false false c = refl

insert_field-serializable :
    (k : String) (v : Json) (fs : Fields)
    → fields_serializable (insert_field k v fs) ≡ (is_serializable v && fields_serializable fs)
unfolding insert_field is_serializable
insert_field-serializable k v end = refl
insert_field-serializable k v (field j w fs) = elim (Bool-cases (precedes j k)) [
  | inr behind ↦ rw behind refl
  | inl ahead ↦
      rw (ahead, insert_field-serializable k v fs)
        (and_swap (is_serializable w) (is_serializable v) (fields_serializable fs))
]

mutual
  unfolding canonical is_serializable

  -- Sorting does not change whether a value has a JSON form.
  pub canonical-serializable : (v : Json) → is_serializable (canonical v) ≡ is_serializable v
  canonical-serializable (arr xs) = canonical_items-serializable xs
  canonical-serializable (obj fs) = canonical_fields-serializable fs
  canonical-serializable v = refl

  canonical_items-serializable :
      (xs : Items) → items_serializable (canonical_items xs) ≡ items_serializable xs
  canonical_items-serializable nil = refl
  canonical_items-serializable (cons x xs) =
      rw (canonical-serializable x, canonical_items-serializable xs) refl

  pub canonical_fields-serializable :
      (fs : Fields) → fields_serializable (canonical_fields fs) ≡ fields_serializable fs
  canonical_fields-serializable end = refl
  canonical_fields-serializable (field k v fs) =
      insert_field-serializable k (canonical v) (canonical_fields fs)
      ∙ rw (canonical-serializable v, canonical_fields-serializable fs) refl
