-- ===== src/Domain/Datetime.antt =====
-- Python's datetime: the wall clock in microseconds from an epoch, and the offset from UTC in
-- microseconds of an aware one.
use rules_enrichment_daemon.Prelude.{
  ◌+◌, Bool, true, false, Option, none, some, Ordering, compare, if◌then◌else◌,
}
use rules_enrichment_daemon.Prelude.Int.{ℤ, pos, pos_part, neg_part, ◌-ℤ◌, ltb_ℤ}

pub record Datetime : Type 0 where
  pub wall : ℤ
  pub offset : Option ℤ

-- `value.replace(tzinfo=timezone.utc)`
abbrev pub replace_utc : Datetime → Datetime
replace_utc t = record { wall = t.wall; offset = some (pos 0) }

-- `value.astimezone(timezone.utc)` of an aware datetime
abbrev pub astimezone_utc : ℤ → Datetime → Datetime
astimezone_utc o t = record { wall = t.wall -ℤ o; offset = some (pos 0) }

-- the point in time, naive datetimes read as UTC
unfoldable pub instant : Datetime → ℤ
instant t = elim t.offset [ none ↦ t.wall | some o ↦ t.wall -ℤ o ]

unfoldable pub compare_ℤ : ℤ → ℤ → Ordering
compare_ℤ a b = compare (pos_part a + neg_part b) (pos_part b + neg_part a)

abbrev is_equal : Ordering → Bool
is_equal Ordering.eq = true
is_equal _ = false

-- `a == b`: points in time if both are aware, wall clocks if both are naive
unfoldable pub datetime_eq : Datetime → Datetime → Bool
unfolding compare_ℤ instant
datetime_eq a b = elim a.offset [
  | none ↦ elim b.offset [ none ↦ is_equal (compare_ℤ a.wall b.wall) | some _ ↦ false ]
  | some _ ↦ elim b.offset [ none ↦ false | some _ ↦ is_equal (compare_ℤ (instant a) (instant b)) ]
]

-- the order of two datetimes, `none` (TypeError) between a naive and an aware one
unfoldable pub datetime_compare : Datetime → Datetime → Option Ordering
unfolding compare_ℤ instant
datetime_compare a b = elim a.offset [
  | none ↦ elim b.offset [ none ↦ some (compare_ℤ a.wall b.wall) | some _ ↦ none ]
  | some _ ↦ elim b.offset [ none ↦ none | some _ ↦ some (compare_ℤ (instant a) (instant b)) ]
]

-- `a < b` of two aware datetimes
unfoldable pub is_before : Datetime → Datetime → Bool
is_before a b = ltb_ℤ (instant a) (instant b)

-- `max(a, b)`: `b` only if it is later
unfoldable pub later : Datetime → Datetime → Datetime
unfolding is_before
later a b = if is_before a b then b else a
