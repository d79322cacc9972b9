-- ===== src/Persistence/Repositories/Listed.antt =====
-- The query for the active rules and the test of a rule's validity in the domain agree.
use rules_enrichment_daemon.Prelude.{
  String, ◌≡◌, refl, ◌∙◌, Bool, true, false, ◌&&◌, not, Option, none, some, arith, if◌then◌else◌,
}
use rules_enrichment_daemon.Domain.Datetime.{Datetime, is_before}
use rules_enrichment_daemon.Domain.Rule.{
  is_valid_at, as_utc, as_utc_optional, starts_later, ended_before,
}
use rules_enrichment_daemon.Domain.Rule.Validity.{instant-as_utc}
use rules_enrichment_daemon.Persistence.Models.{EnrichmentRuleModel}
use rules_enrichment_daemon.Persistence.Mappers.{to_rule}
use rules_enrichment_daemon.Persistence.Repositories.{
  in_scope, has_started, has_not_ended, is_listed,
}

double_not : (b : Bool) → b ≡ not (not b)
double_not true = refl
double_not false = refl

is_before-as_utc : (s t : Datetime) → is_before (as_utc s) (as_utc t) ≡ is_before s t
unfolding is_before
is_before-as_utc s t = rw (instant-as_utc s, instant-as_utc t) refl

starts_later-eq :
    (now : Datetime) (from : Option Datetime)
    → starts_later (as_utc now) (as_utc_optional from) ≡ not (has_started from now)
unfolding as_utc_optional
starts_later-eq now none = refl
starts_later-eq now (some from) = is_before-as_utc now from ∙ double_not (is_before now from)

ended_before-eq :
    (now : Datetime) (to : Option Datetime)
    → ended_before (as_utc now) (as_utc_optional to) ≡ not (has_not_ended to now)
unfolding as_utc_optional
ended_before-eq now none = refl
ended_before-eq now (some to) = is_before-as_utc to now ∙ double_not (is_before to now)

tests_regroup :
    (on started lasting client facility spot : Bool)
    → (on && started && lasting && client && facility && spot) ≡ (
        (if not started then false else if not lasting then false else on)
        && (client && facility && spot))
tests_regroup on started lasting client facility spot = ground arith

-- The query for the active rules selects exactly the rules that `is_valid_at` accepts and whose
-- scope fits, whatever time zones the bounds are written in.
pub is_listed-eq :
    (now : Datetime) (client facility place : Option String) (m : EnrichmentRuleModel)
    → is_listed now client facility place m ≡ (
        is_valid_at (to_rule m) now
        && (in_scope client m.client_code
            && in_scope facility m.facility_code
            && in_scope place m.zone_code))
unfolding is_listed is_valid_at to_rule
is_listed-eq now client facility place m =
    rw (starts_later-eq, ended_before-eq)
      (tests_regroup m.is_active (has_started m.valid_from now) (has_not_ended m.valid_to now)
        (in_scope client m.client_code) (in_scope facility m.facility_code)
        (in_scope place m.zone_code))
