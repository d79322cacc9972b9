-- ===== src/Domain/Json/Compare.antt =====
-- Python's `==`, `in` and orders on JSON values.
use Prim.Native.String
use rules_enrichment_daemon.Prelude.{
  ℕ, ◌+◌, ◌*◌, ◌^◌, Ordering, compare, Bool, true, false, ◌&&◌, ◌||◌, Option, none, some, str_eq,
  ◌==◌,
}
use rules_enrichment_daemon.Prelude.Int.{ℤ, pos_part, neg_part}
use rules_enrichment_daemon.Domain.Datetime.{datetime_eq, datetime_compare}
use rules_enrichment_daemon.Domain.Json.{
  Json, null, bool, int, float, str, datetime, arr, obj, Items, nil, cons, Fields, end, field,
  as_number,
}
use rules_enrichment_daemon.Domain.Json.Dict.{get, size}

-- m / 2 ^ k against n / 2 ^ l
unfoldable pub compare_numbers : ℤ × ℕ → ℤ × ℕ → Ordering
compare_numbers (m, k) (n, l) =
    compare (pos_part m * 2 ^ l + neg_part n * 2 ^ k) (pos_part n * 2 ^ k + neg_part m * 2 ^ l)

abbrev is_equal : Ordering → Bool
is_equal Ordering.eq = true
is_equal _ = false

abbrev equal_numbers : Option (ℤ × ℕ) → Option (ℤ × ℕ) → Bool
equal_numbers (some a) (some b) = is_equal (compare_numbers a b)
equal_numbers _ _ = false

-- `left == right`: numbers by value, dicts without regard to order
unfoldable mutual
  unfolding get size compare_numbers datetime_eq

  pub json_eq : Json → Json → Bool
  json_eq null null = true
  json_eq null _ = false
  json_eq (bool b) w = equal_numbers (as_number (bool b)) (as_number w)
  json_eq (int n) w = equal_numbers (some (n, 0)) (as_number w)
  json_eq (float m k) w = equal_numbers (some (m, k)) (as_number w)
  json_eq (str s) (str t) = str_eq s t
  json_eq (str s) _ = false
  json_eq (datetime a) (datetime b) = datetime_eq a b
  json_eq (datetime a) _ = false
  json_eq (arr xs) (arr ys) = items_eq xs ys
  json_eq (arr xs) _ = false
  json_eq (obj fs) (obj gs) = size fs == size gs && fields_eq fs gs
  json_eq (obj fs) _ = false

  pub items_eq : Items → Items → Bool
  items_eq nil nil = true
  items_eq nil (cons y ys) = false
  items_eq (cons x xs) nil = false
  items_eq (cons x xs) (cons y ys) = json_eq x y && items_eq xs ys

  pub fields_eq : Fields → Fields → Bool
  fields_eq end gs = true
  fields_eq (field k v fs) gs =
      let rest = fields_eq fs gs in elim (get k gs) [ none ↦ false | some w ↦ json_eq v w && rest ]

-- `any(value == x for x in items)`
unfoldable pub item_in : Json → Items → Bool
unfolding json_eq
item_in v nil = false
item_in v (cons x xs) = json_eq v x || item_in v xs

-- The order of two values, `none` where Python raises TypeError. Two lists compare at the first
-- place where they differ.
unfoldable mutual
  unfolding json_eq compare_numbers datetime_compare

  pub json_compare : Json → Json → Option Ordering
  json_compare (bool b) w = elim (as_number w) [
    | none ↦ none
    | some y ↦ elim (as_number (bool b)) [ none ↦ none | some x ↦ some (compare_numbers x y) ]
  ]
  json_compare (int n) w = elim (as_number w) [
    | none ↦ none
    | some y ↦ some (compare_numbers (n, 0) y)
  ]
  json_compare (float m k) w = elim (as_number w) [
    | none ↦ none
    | some y ↦ some (compare_numbers (m, k) y)
  ]
  json_compare (str s) (str t) = some (String.compare s t)
  json_compare (str s) _ = none
  json_compare (datetime a) (datetime b) = datetime_compare a b
  json_compare (datetime a) _ = none
  json_compare (arr xs) (arr ys) = items_compare xs ys
  json_compare (arr xs) _ = none
  json_compare null _ = none
  json_compare (obj fs) _ = none

  pub items_compare : Items → Items → Option Ordering
  items_compare nil nil = some Ordering.eq
  items_compare nil (cons y ys) = some Ordering.lt
  items_compare (cons x xs) nil = some Ordering.gt
  items_compare (cons x xs) (cons y ys) =
      let rest = items_compare xs ys in
      elim (json_eq x y) [ true ↦ rest | false ↦ json_compare x y ]
