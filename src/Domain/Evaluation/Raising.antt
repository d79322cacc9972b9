-- ===== src/Domain/Evaluation/Raising.antt =====
-- An evaluation under a rule whose conditions raise.
use mathlib.Core.List.Permᴰ
use rules_enrichment_daemon.Prelude.{◌≡◌, refl, true, some, List, [], ◌∷◌, inl, inr, filter}
use rules_enrichment_daemon.Prelude.Any.{Any, Any-perm, Any-filter}
use rules_enrichment_daemon.Prelude.Sort.{sort_by-perm}
use rules_enrichment_daemon.Domain.Errors.{Error, err, Result-cases}
use rules_enrichment_daemon.Domain.Datetime.{Datetime}
use rules_enrichment_daemon.Domain.Order.{ExternalOrder}
use rules_enrichment_daemon.Domain.Value.{Runtime}
use rules_enrichment_daemon.Domain.Rule.{EnrichmentRule, is_valid_at}
use rules_enrichment_daemon.Domain.Evaluation.{matches, active_rules, evaluate}
use rules_enrichment_daemon.Domain.Evaluation.Matching.{first_error, evaluate-eq}

module _ (rt : Runtime) (order : ExternalOrder) where
  -- the conditions of the rule raise for the order
  abbrev pub Raises : EnrichmentRule → Type 0
  Raises r = (e : Error) × (matches rt order r ≡ err e)

  first_error-some :
      (rules : List EnrichmentRule)
      → Any Raises rules
      → (e : Error) × (first_error rt order rules ≡ some e)
  first_error-some [] h = elim h [ ]
  first_error-some (r ∷ rules) (inl (e, raised)) = (e, rw raised refl)
  first_error-some (r ∷ rules) (inr there) = elim (Result-cases (matches rt order r)) [
    | inl (b, fine) ↦ let (e, first) = first_error-some rules there in (e, rw (fine, first) refl)
    | inr (e, raised) ↦ (e, rw raised refl)
  ]

  -- One valid rule whose conditions raise makes the evaluation raise, whatever the other rules are.
  pub evaluate-Raises :
      (rules : List EnrichmentRule) (now : Datetime)
      → Any (λ r. (is_valid_at r now ≡ true) × Raises r) rules
      → (e : Error) × (evaluate rt order rules now ≡ err e)
  unfolding active_rules
  evaluate-Raises rules now h =
      let valid = filter (λ r. is_valid_at r now) rules in
      let raising =
        Any-perm Raises (Permᴰ.symm (sort_by-perm (λ r. r.priority) valid))
          (Any-filter Raises (λ r. is_valid_at r now) rules h) in
      let (e, first) = first_error-some (active_rules rules now) raising in
      (e, rw (evaluate-eq rt order rules now, first) refl)
