-- ===== src/Domain/Errors.antt =====
-- src/app/shared/errors/errors.py, and the exceptions of Python and of the libraries that the
-- daemon lets through or catches. A result is a value or an exception.
use rules_enrichment_daemon.Prelude.{String, ◌≡◌, refl, ◌⊎◌, inl, inr}

pub data Error : Type 0 where
  external_api_timeout : String → Error
  external_api_unavailable : String → Error
  rule_evaluation : String → Error
  invalid_rule_definition : String → Error
  enrichment_submission : String → Error
  database_persistence : String → Error
  dead_letter : String → Error
  -- Python's own
  type_error attribute_error key_error value_error assertion_error : Error
  runtime_error : String → Error
  -- `re.error`
  re_error : Error
  -- SQLAlchemy's: a duplicate primary key, a parameter that cannot be bound, anything else
  integrity_error statement_error : Error
  operational_error : String → Error
  -- any exception of an outside service, with its text
  foreign : String → Error

pub data Result {ℓ} (Value : Type ℓ) : Type ℓ where
  ok : Value → Result Value
  err : Error → Result Value

module _ {ℓ κ} {A : Type ℓ} {B : Type κ} where
  infixl 5 ◌>>=◌
  -- an exception skips what follows
  abbrev pub ◌>>=◌ : Result A → (A → Result B) → Result B
  err raised >>= next = err raised
  ok value >>= next = next value

-- To split on a computed result and keep the equation.
pub Result-cases {ℓ} :
    {A : Type ℓ} (r : Result A) → ((a : A) × (r ≡ ok a)) ⊎ ((e : Error) × (r ≡ err e))
Result-cases (ok a) = inl (a, refl)
Result-cases (err e) = inr (e, refl)
