-- ===== src/Domain/Specification/Operators.antt =====
-- Laws of the operators.
use rules_enrichment_daemon.Prelude.{
  String, ◌≡◌, refl, sym, Bool, true, false, not, Option, none, some, Ordering, if◌then◌else◌,
}
use rules_enrichment_daemon.Domain.Errors.{Result, ok, err, ◌>>=◌}
use rules_enrichment_daemon.Domain.Json.{Json, str}
use rules_enrichment_daemon.Domain.Order.{ExternalOrder}
use rules_enrichment_daemon.Domain.Value.{Value, Runtime, value_compare}
use rules_enrichment_daemon.Domain.Specification.{
  Op, eq, neq, gt, gte, lt, lte, is_in, not_in, exists, is_missing, extract, member_of, ordered,
  is_lt, is_gt, apply_op, test_value, test_predicate, predicate, is_satisfied_by,
}

-- the operators that come in pairs
pub data IsComplement : Op → Op → Type 0 where
  eq_neq : IsComplement eq neq
  neq_eq : IsComplement neq eq
  gt_lte : IsComplement gt lte
  lte_gt : IsComplement lte gt
  lt_gte : IsComplement lt gte
  gte_lt : IsComplement gte lt
  in_not_in : IsComplement is_in not_in
  not_in_in : IsComplement not_in is_in

abbrev pub negated : Result Bool → Result Bool
negated r = r >>= λ b. ok (not b)

not-not : (b : Bool) → not (not b) ≡ b
not-not true = refl
not-not false = refl

negated-negated : (r : Result Bool) → negated (negated r) ≡ r
negated-negated (ok b) = rw not-not
negated-negated (err e) = refl

ordered-not :
    (test : Ordering → Bool) (c : Option Ordering)
    → ordered (λ x. not (test x)) c ≡ negated (ordered test c)
ordered-not test none = refl
ordered-not test (some x) = refl

ordered-not-not :
    (test : Ordering → Bool) (c : Option Ordering)
    → ordered test c ≡ negated (ordered (λ x. not (test x)) c)
ordered-not-not test none = refl
ordered-not-not test (some x) = rw not-not

apply_op-complement :
    (rt : Runtime) {op op' : Op} (left : Value) (right : Json)
    → IsComplement op op'
    → apply_op rt op' left right ≡ negated (apply_op rt op left right)
unfolding apply_op
apply_op-complement rt left right eq_neq = refl
apply_op-complement rt left right neq_eq = rw not-not
apply_op-complement rt left right gt_lte = ordered-not is_gt (value_compare left right)
apply_op-complement rt left right lte_gt = ordered-not-not is_gt (value_compare left right)
apply_op-complement rt left right lt_gte = ordered-not is_lt (value_compare left right)
apply_op-complement rt left right gte_lt = ordered-not-not is_lt (value_compare left right)
apply_op-complement rt left right in_not_in = refl
apply_op-complement rt left right not_in_in = sym (negated-negated (member_of left right))

test_value-complement :
    (rt : Runtime) {op op' : Op} (left : Value) (right : Json)
    → IsComplement op op'
    → test_value rt op' left right
      ≡ (if is_missing left then ok false else apply_op rt op' left right)
unfolding test_value
test_value-complement rt left right eq_neq = refl
test_value-complement rt left right neq_eq = refl
test_value-complement rt left right gt_lte = refl
test_value-complement rt left right lte_gt = refl
test_value-complement rt left right lt_gte = refl
test_value-complement rt left right gte_lt = refl
test_value-complement rt left right in_not_in = refl
test_value-complement rt left right not_in_in = refl

flip : {op op' : Op} → IsComplement op op' → IsComplement op' op
flip eq_neq = neq_eq
flip neq_eq = eq_neq
flip gt_lte = lte_gt
flip lte_gt = gt_lte
flip lt_gte = gte_lt
flip gte_lt = lt_gte
flip in_not_in = not_in_in
flip not_in_in = in_not_in

module _ (rt : Runtime) (o : ExternalOrder) (path : String) (right : Json) where
  -- On a field that the order has, neq, lte, gte and not_in answer the opposite of eq, gt, lt and
  -- in, and raise the same exceptions.
  pub predicate-complement :
      {op op' : Op}
      → IsComplement op op'
      → is_missing (extract rt o path) ≡ false
      → is_satisfied_by rt o (predicate (str path) op' right)
        ≡ negated (is_satisfied_by rt o (predicate (str path) op right))
  unfolding is_satisfied_by test_predicate
  predicate-complement c there =
      rw
        (
          test_value-complement rt (extract rt o path) right c,
          test_value-complement rt (extract rt o path) right (flip c),
          there,
        )
        (apply_op-complement rt (extract rt o path) right c)

  missing_value :
      (op : Op) (left : Value) → is_missing left ≡ true → test_value rt op left right ≡ ok false
  unfolding test_value
  missing_value exists left h = rw h
  missing_value _ left h = rw h

  -- On a field that the order does not have, every operator answers false and none raises: neq
  -- and not_in do not hold of a missing field.
  pub predicate-missing :
      (op : Op)
      → is_missing (extract rt o path) ≡ true
      → is_satisfied_by rt o (predicate (str path) op right) ≡ ok false
  unfolding is_satisfied_by test_predicate
  predicate-missing op h = missing_value op (extract rt o path) h
