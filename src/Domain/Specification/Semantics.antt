-- ===== src/Domain/Specification/Semantics.antt =====
-- Satisfaction as a relation, by rules, and its agreement with `is_satisfied_by`.
use rules_enrichment_daemon.Prelude.{◌≡◌, refl, ◌↔◌, Bool, true, false}
use rules_enrichment_daemon.Domain.Errors.{Error, Result, ok, err}
use rules_enrichment_daemon.Domain.Json.{Json}
use rules_enrichment_daemon.Domain.Order.{ExternalOrder}
use rules_enrichment_daemon.Domain.Value.{Runtime}
use rules_enrichment_daemon.Domain.Specification.{
  Op, Spec, Specs, and_spec, or_spec, predicate, none_left, spec, test_predicate, is_satisfied_by,
  all_satisfied, any_satisfied,
}

module _ (rt : Runtime) (o : ExternalOrder) where
  -- `Answers s r`: the specification ends with `r`. A conjunction reads on past a true part, and a
  -- disjunction past a false one; any other answer, an exception too, is the answer of the whole.
  mutual
    pub data Answers : Spec → Result Bool → Type 0 where
      of_predicate :
          (path : Json) (op : Op) (value : Json) {r : Result Bool}
          → test_predicate rt o path op value ≡ r
          → Answers (predicate path op value) r
      of_and : {ss : Specs} {r : Result Bool} → AllAnswer ss r → Answers (and_spec ss) r
      of_or : {ss : Specs} {r : Result Bool} → AnyAnswer ss r → Answers (or_spec ss) r

    pub data AllAnswer : Specs → Result Bool → Type 0 where
      all_done : {r : Result Bool} → ok true ≡ r → AllAnswer none_left r
      all_on :
          {s : Spec} {ss : Specs} {r : Result Bool}
          → Answers s (ok true)
          → AllAnswer ss r
          → AllAnswer (spec s ss) r
      all_false :
          {s : Spec} {ss : Specs} {r : Result Bool}
          → Answers s (ok false)
          → ok false ≡ r
          → AllAnswer (spec s ss) r
      all_raise :
          {s : Spec} {ss : Specs} {r : Result Bool} (e : Error)
          → Answers s (err e)
          → err e ≡ r
          → AllAnswer (spec s ss) r

    pub data AnyAnswer : Specs → Result Bool → Type 0 where
      any_done : {r : Result Bool} → ok false ≡ r → AnyAnswer none_left r
      any_on :
          {s : Spec} {ss : Specs} {r : Result Bool}
          → Answers s (ok false)
          → AnyAnswer ss r
          → AnyAnswer (spec s ss) r
      any_true :
          {s : Spec} {ss : Specs} {r : Result Bool}
          → Answers s (ok true)
          → ok true ≡ r
          → AnyAnswer (spec s ss) r
      any_raise :
          {s : Spec} {ss : Specs} {r : Result Bool} (e : Error)
          → Answers s (err e)
          → err e ≡ r
          → AnyAnswer (spec s ss) r

  mutual
    unfolding is_satisfied_by

    sound : {s : Spec} {r : Result Bool} → Answers s r → is_satisfied_by rt o s ≡ r
    sound (of_predicate path op value e) = e
    sound (of_and a) = all_sound a
    sound (of_or a) = any_sound a

    all_sound : {ss : Specs} {r : Result Bool} → AllAnswer ss r → all_satisfied rt o ss ≡ r
    all_sound (all_done e) = e
    all_sound (all_on a b) = rw (sound a) (all_sound b)
    all_sound (all_false a e) = rw (sound a) e
    all_sound (all_raise x a e) = rw (sound a) e

    any_sound : {ss : Specs} {r : Result Bool} → AnyAnswer ss r → any_satisfied rt o ss ≡ r
    any_sound (any_done e) = e
    any_sound (any_on a b) = rw (sound a) (any_sound b)
    any_sound (any_true a e) = rw (sound a) e
    any_sound (any_raise x a e) = rw (sound a) e

  all_step :
      (s : Spec) (ss : Specs) (r : Result Bool)
      → is_satisfied_by rt o s ≡ r
      → Answers s r
      → AllAnswer ss (all_satisfied rt o ss)
      → AllAnswer (spec s ss) (all_satisfied rt o (spec s ss))
  unfolding is_satisfied_by
  all_step s ss (ok true) e a b = all_on a (rw e b)
  all_step s ss (ok false) e a b = all_false a (rw e)
  all_step s ss (err x) e a b = all_raise x a (rw e)

  any_step :
      (s : Spec) (ss : Specs) (r : Result Bool)
      → is_satisfied_by rt o s ≡ r
      → Answers s r
      → AnyAnswer ss (any_satisfied rt o ss)
      → AnyAnswer (spec s ss) (any_satisfied rt o (spec s ss))
  unfolding is_satisfied_by
  any_step s ss (ok false) e a b = any_on a (rw e b)
  any_step s ss (ok true) e a b = any_true a (rw e)
  any_step s ss (err x) e a b = any_raise x a (rw e)

  mutual
    unfolding is_satisfied_by

    complete : (s : Spec) → Answers s (is_satisfied_by rt o s)
    complete (predicate path op value) = of_predicate path op value refl
    complete (and_spec ss) = of_and (all_complete ss)
    complete (or_spec ss) = of_or (any_complete ss)

    all_complete : (ss : Specs) → AllAnswer ss (all_satisfied rt o ss)
    all_complete none_left = all_done refl
    all_complete (spec s ss) =
        all_step s ss (is_satisfied_by rt o s) refl (complete s) (all_complete ss)

    any_complete : (ss : Specs) → AnyAnswer ss (any_satisfied rt o ss)
    any_complete none_left = any_done refl
    any_complete (spec s ss) =
        any_step s ss (is_satisfied_by rt o s) refl (complete s) (any_complete ss)

  -- A specification evaluates to an answer or an exception exactly when the rules of a relation
  -- derive it, so `and` and `or` stop at the first part that decides.
  pub is_satisfied_by_iff :
      (s : Spec) (r : Result Bool) → (is_satisfied_by rt o s ≡ r) ↔ Answers s r
  is_satisfied_by_iff s r = (λ e. rw (← e) (complete s), sound)
