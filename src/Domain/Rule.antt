-- ===== src/Domain/Rule.antt =====
-- domain/entities/enrichment_rule.py: a rule and the time for which it is valid.
pub mod Validity
use rules_enrichment_daemon.Prelude.{String, Bool, false, ◌&&◌, Option, none, some, if◌then◌else◌}
use rules_enrichment_daemon.Prelude.Int.{ℤ}
use rules_enrichment_daemon.Domain.Datetime.{Datetime, replace_utc, astimezone_utc, is_before}
use rules_enrichment_daemon.Domain.Json.{Fields}

pub record EnrichmentRule : Type 0 where
  pub rule_id : String
  pub facility_code : Option String
  pub client_code : Option String
  pub zone_code : Option String
  pub rule_type : String
  pub priority : ℤ
  pub is_active : Bool
  pub conditions_json : Fields
  pub enrichment_json : Fields
  pub valid_from : Option Datetime
  pub valid_to : Option Datetime

-- `_as_utc` of a datetime
unfoldable pub as_utc : Datetime → Datetime
as_utc t = elim t.offset [ none ↦ replace_utc t | some o ↦ astimezone_utc o t ]

-- `_as_utc(value)`, with None for None
unfoldable pub as_utc_optional : Option Datetime → Option Datetime
as_utc_optional none = none
as_utc_optional (some t) = some (as_utc t)

-- the two guards: a bound that is None is no bound (a datetime is always truthy)
abbrev pub starts_later : Datetime → Option Datetime → Bool
starts_later now none = false
starts_later now (some from) = is_before now from

abbrev pub ended_before : Datetime → Option Datetime → Bool
ended_before now none = false
ended_before now (some to) = is_before to now

unfoldable pub is_valid_at : EnrichmentRule → Datetime → Bool
unfolding as_utc_optional is_before
is_valid_at rule now =
    let now_utc = as_utc now in
    let valid_from_utc = as_utc_optional rule.valid_from in
    let valid_to_utc = as_utc_optional rule.valid_to in
    if starts_later now_utc valid_from_utc
    then false
    else if ended_before now_utc valid_to_utc
    then false
    else rule.is_active
