-- ===== src/Domain/Json.antt =====
-- The values that dicts and lists carry in Python: conditions and enrichments of a rule, payloads.
-- All but `datetime` have a JSON form.
-- A dict is its entries in insertion order. A finite float is the dyadic fraction m / 2 ^ k that it
-- stands for.
pub mod Dict
pub mod Compare
pub mod Canonical
use rules_enrichment_daemon.Prelude.{
  ℕ, ◌+◌, String, Bool, true, false, ◌&&◌, Option, none, some, List, [], ◌∷◌, ◌==◌,
}
use rules_enrichment_daemon.Prelude.Int.{ℤ, pos, pos_part, neg_part}
use rules_enrichment_daemon.Domain.Datetime.{Datetime}

mutual
  pub data Json : Type 0 where
    null : Json
    bool : Bool → Json
    int : ℤ → Json
    float : ℤ → ℕ → Json
    str : String → Json
    datetime : Datetime → Json
    arr : Items → Json
    obj : Fields → Json

  pub data Items : Type 0 where
    nil : Items
    cons : Json → Items → Items

  pub data Fields : Type 0 where
    end : Fields
    field : String → Json → Fields → Fields

-- `value is None`
abbrev pub is_none : Json → Bool
is_none null = true
is_none _ = false

-- a number as numerator and binary exponent of the denominator; `True` is 1 and `False` is 0
abbrev pub as_number : Json → Option (ℤ × ℕ)
as_number (bool true) = some (pos 1, 0)
as_number (bool false) = some (pos 0, 0)
as_number (int n) = some (n, 0)
as_number (float m k) = some (m, k)
as_number _ = none

-- `bool(value)`
unfoldable pub truthy : Json → Bool
truthy null = false
truthy (bool b) = b
truthy (int n) = elim (pos_part n + neg_part n == 0) [ true ↦ false | false ↦ true ]
truthy (float m k) = elim (pos_part m + neg_part m == 0) [ true ↦ false | false ↦ true ]
truthy (str String.[]) = false
truthy (str (String.◌∷◌ c s)) = true
truthy (datetime t) = true
truthy (arr nil) = false
truthy (arr (cons v vs)) = true
truthy (obj end) = false
truthy (obj (field k v fs)) = true

-- `json.dumps` accepts the value; a datetime anywhere in it raises TypeError
unfoldable mutual
  pub is_serializable : Json → Bool
  is_serializable (datetime t) = false
  is_serializable (arr xs) = items_serializable xs
  is_serializable (obj fs) = fields_serializable fs
  is_serializable _ = true

  pub items_serializable : Items → Bool
  items_serializable nil = true
  items_serializable (cons x xs) = is_serializable x && items_serializable xs

  pub fields_serializable : Fields → Bool
  fields_serializable end = true
  fields_serializable (field k v fs) = is_serializable v && fields_serializable fs

-- `[str, ...]` as a value
unfoldable pub texts : List String → Items
texts [] = nil
texts (t ∷ ts) = cons (str t) (texts ts)
