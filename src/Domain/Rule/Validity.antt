-- ===== src/Domain/Rule/Validity.antt =====
-- When a rule is valid, by points in time.
use rules_enrichment_daemon.Prelude.{
  ◌≡◌, refl, ◌↔◌, Bool, true, false, Option, none, some, arith, inl, inr, Option-cases,
  if◌then◌else◌,
}
use rules_enrichment_daemon.Prelude.Int.{ℤ, pos, ◌-ℤ◌, ◌≤ℤ◌}
use rules_enrichment_daemon.Domain.Datetime.{Datetime, instant, is_before}
use rules_enrichment_daemon.Domain.Rule.{
  EnrichmentRule, as_utc, as_utc_optional, starts_later, ended_before, is_valid_at,
}

-- no bound, or a bound that is not later than `t`
abbrev pub NotAfter : Option Datetime → ℤ → Type 0
NotAfter none t = Unit
NotAfter (some from) t = instant from ≤ℤ t

-- no bound, or a bound that is not earlier than `t`
abbrev pub NotBefore : Option Datetime → ℤ → Type 0
NotBefore none t = Unit
NotBefore (some to) t = t ≤ℤ instant to

-- the rule is switched on, and `t` lies between its bounds, both included
pub record IsValidAt (rule : EnrichmentRule) (t : ℤ) : Type 0 where
  pub active : rule.is_active ≡ true
  pub started : NotAfter rule.valid_from t
  pub not_ended : NotBefore rule.valid_to t

pub sub-zero : (a : ℤ) → a -ℤ pos 0 ≡ a
unfolding ◌-ℤ◌
sub-zero a = ground arith

-- `_as_utc` keeps the point in time.
pub instant-as_utc : (t : Datetime) → instant (as_utc t) ≡ instant t
unfolding instant as_utc
instant-as_utc t = elim (Option-cases t.offset) [
  | inl naive ↦ rw (naive, sub-zero t.wall)
  | inr (o, aware) ↦ rw (aware, sub-zero (t.wall -ℤ o))
]

starts_later_iff :
    (now : Datetime) (from : Option Datetime)
    → (starts_later (as_utc now) (as_utc_optional from) ≡ false) ↔ NotAfter from (instant now)
unfolding as_utc_optional is_before
starts_later_iff now none = (λ _. tt, λ _. refl)
starts_later_iff now (some from) = ground (arith, instant-as_utc now, instant-as_utc from)

ended_before_iff :
    (now : Datetime) (to : Option Datetime)
    → (ended_before (as_utc now) (as_utc_optional to) ≡ false) ↔ NotBefore to (instant now)
unfolding as_utc_optional is_before
ended_before_iff now none = (λ _. tt, λ _. refl)
ended_before_iff now (some to) = ground (arith, instant-as_utc now, instant-as_utc to)

is_valid_at-eq :
    (rule : EnrichmentRule) (now : Datetime)
    → is_valid_at rule now ≡ (
        if starts_later (as_utc now) (as_utc_optional rule.valid_from)
        then false
        else if ended_before (as_utc now) (as_utc_optional rule.valid_to)
        then false
        else rule.is_active)
unfolding is_valid_at
is_valid_at-eq rule now = refl

three_guards :
    (a b c : Bool)
    → ((if a then false else if b then false else c) ≡ true)
      ↔ ((c ≡ true) × (a ≡ false) × (b ≡ false))
three_guards a b c = ground arith

-- A rule is valid at `now` exactly when it is switched on and the point in time lies between its
-- bounds, both included, whatever time zones the three datetimes are written in.
pub is_valid_at_iff :
    (rule : EnrichmentRule) (now : Datetime)
    → (is_valid_at rule now ≡ true) ↔ IsValidAt rule (instant now)
is_valid_at_iff rule now =
    let from = starts_later_iff now rule.valid_from in
    let to = ended_before_iff now rule.valid_to in
    rw is_valid_at-eq (
      λ h.
          let (on, a, b) = (three_guards _ _ rule.is_active).0 h in
          record { active = on; started = from.0 a; not_ended = to.0 b },
      λ v. (three_guards _ _ _).1 (v.active, from.1 v.started, to.1 v.not_ended),
    )
