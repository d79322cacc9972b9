-- ===== src/Http/Retry/Waits.antt =====
-- How long a retried request sleeps in all.
use mathlib.Core.Path.{subst}
use rules_enrichment_daemon.Prelude.{
  sym, ℕ, zero, suc, ◌+◌, ◌-◌, ◌*◌, ◌^◌, ◌≤◌, ◌≡◌, true, false, List, [], ◌∷◌, ◌++◌, inl, inr,
  arith, Bool-cases, ◌==◌,
}
use rules_enrichment_daemon.Http.Retry.{
  Reply, RetryPolicy, Trail, judged, is_retried, delay, retry_loop, run,
}

abbrev pub total : List ℕ → ℕ
total [] = 0
total (x ∷ xs) = x + total xs

-- the longest sleeps of `left` retries from an attempt on, with a jitter of at most the base delay
abbrev pub longest : ℕ → ℕ → ℕ → ℕ
longest base attempt zero = 0
longest base attempt (suc left) = 2 ^ (attempt - 1) * base + base + longest base (attempt + 1) left

total-append : (xs : List ℕ) (y : ℕ) → total (xs ++ y ∷ []) ≡ total xs + y
total-append [] y = omega arith
total-append (x ∷ xs) y = omega (arith, total-append xs y)

module _ (policy : RetryPolicy) (fn : ℕ → Reply) (jitter : ℕ → ℕ)
    (small : (n : ℕ) → jitter n ≤ policy.base_delay) where
  delay-bound :
      (attempt n : ℕ)
      → delay policy attempt (jitter n) ≤ 2 ^ (attempt - 1) * policy.base_delay + policy.base_delay
  unfolding delay
  delay-bound attempt n = ground (arith, small n)

  loop-total :
      (left attempt : ℕ) (t : Trail)
      → attempt + left ≡ policy.max_attempts
      → total (retry_loop policy fn jitter (suc left) attempt t).1.sleeps
        ≤ total t.sleeps + longest policy.base_delay attempt left
  unfolding retry_loop
  loop-total zero attempt t e =
      let done : (attempt == policy.max_attempts) ≡ true = ground arith in
      elim (Bool-cases (is_retried (judged (fn t.calls)))) [
        | inr final ↦ rw final (omega arith)
        | inl again ↦ rw (again, done) (omega arith)
      ]
  loop-total (suc left) attempt t e =
      let d = delay policy attempt (jitter t.calls) in
      let t' = record t { calls = t.calls + 1; sleeps = t.sleeps ++ d ∷ [] } in
      let more : (attempt == policy.max_attempts) ≡ false = ground arith in
      elim (Bool-cases (is_retried (judged (fn t.calls)))) [
        | inr final ↦ rw final (omega arith)
        | inl again ↦
            rw (again, more)
              (omega (
                arith,
                loop-total left (attempt + 1) t' (omega arith),
                total-append t.sleeps d,
                delay-bound attempt t.calls,
              ))
      ]

  -- A run of at most n + 1 attempts sleeps no longer than the n longest delays together.
  pub run-total :
      (n : ℕ) (t : Trail)
      → policy.max_attempts ≡ suc n
      → total (run policy fn jitter t).1.sleeps ≤ total t.sleeps + longest policy.base_delay 1 n
  unfolding run
  run-total n t e =
      subst
        (λ m.
          total (retry_loop policy fn jitter m 1 t).1.sleeps
          ≤ total t.sleeps + longest policy.base_delay 1 n)
        (sym e) (loop-total n 1 t (omega (arith, e)))
