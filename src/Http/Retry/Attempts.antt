-- ===== src/Http/Retry/Attempts.antt =====
-- Which call's reply a retried request returns, and how often it calls and sleeps.
use mathlib.Core.Path.{subst}
use rules_enrichment_daemon.Prelude.{
  ℕ, zero, suc, ◌+◌, ◌≤◌, ◌<◌, ◌≡◌, refl, ap, ◌∙◌, sym, true, false, [], ◌∷◌, ◌++◌, ◌⊎◌, inl, inr,
  All, All-append, length, length-append, arith, Bool-cases, ◌==◌,
}
use rules_enrichment_daemon.Http.Retry.{
  Reply, RetryPolicy, Trail, judged, is_retried, delay, retry_loop, run,
}

-- the outcome of a run whose deciding call is the `index`-th of at most `most`, from `t` on
pub record Decided (policy : RetryPolicy) (fn : ℕ → Reply) (most : ℕ) (t : Trail)
    (x : Reply × Trail) : Type 0 where
  pub index : ℕ
  pub within : index < most
  -- all calls before were retried
  pub before : (i : ℕ) → i < index → is_retried (judged (fn (t.calls + i))) ≡ true
  -- the deciding one was not, or it was the last
  pub stops : (is_retried (judged (fn (t.calls + index))) ≡ false) ⊎ (index + 1 ≡ most)
  pub reply : x.0 ≡ judged (fn (t.calls + index))
  pub calls : x.1.calls ≡ t.calls + index + 1
  pub sleeps : length x.1.sleeps ≡ length t.sleeps + index
  pub delays : All (λ d. d ≤ policy.max_delay) t.sleeps → All (λ d. d ≤ policy.max_delay) x.1.sleeps

delay-max :
    (policy : RetryPolicy) (attempt jitter : ℕ) → delay policy attempt jitter ≤ policy.max_delay
unfolding delay
delay-max policy attempt jitter = ground arith

module _ (policy : RetryPolicy) (fn : ℕ → Reply) (jitter : ℕ → ℕ) where
  called : Trail → Trail
  called t = record t { calls = t.calls + 1 }

  slept : ℕ → Trail → Trail
  slept attempt t = record t {
    calls = t.calls + 1;
    sleeps = t.sleeps ++ delay policy attempt (jitter t.calls) ∷ [];
  }

  -- the run ends with its first call
  ended :
      (most : ℕ) (t : Trail)
      → (is_retried (judged (fn t.calls)) ≡ false) ⊎ (1 ≡ suc most)
      → Decided policy fn (suc most) t (judged (fn t.calls), called t)
  unfolding called
  ended most t stops =
      let here : t.calls ≡ t.calls + 0 = omega arith in
      record {
        index = 0;
        within = omega arith;
        before = λ i h. absurd (omega arith);
        stops = subst (λ n. (is_retried (judged (fn n)) ≡ false) ⊎ (1 ≡ suc most)) here stops;
        reply = ap (λ n. judged (fn n)) here;
        calls = omega arith;
        sleeps = omega arith;
        delays = λ h. h;
      }

  all_before :
      (t : Trail) (index : ℕ)
      → is_retried (judged (fn t.calls)) ≡ true
      → ((i : ℕ) → i < index → is_retried (judged (fn (t.calls + 1 + i))) ≡ true)
      → (i : ℕ) → i < index + 1
      → is_retried (judged (fn (t.calls + i))) ≡ true
  all_before t index again h zero k =
      let here : t.calls ≡ t.calls + 0 = omega arith in
      subst (λ n. is_retried (judged (fn n)) ≡ true) here again
  all_before t index again h (suc i) k =
      let there : t.calls + 1 + i ≡ t.calls + suc i = omega arith in
      subst (λ n. is_retried (judged (fn n)) ≡ true) there (h i (omega arith))

  -- the run goes on behind its first call
  goes_on :
      (attempt most : ℕ) (t : Trail) (x : Reply × Trail)
      → is_retried (judged (fn t.calls)) ≡ true
      → Decided policy fn most (slept attempt t) x
      → Decided policy fn (suc most) t x
  unfolding slept
  goes_on attempt most t x again d =
      let there : t.calls + 1 + d.index ≡ t.calls + (d.index + 1) = omega arith in
      record {
        index = d.index + 1;
        within = omega (arith, d.within);
        before = all_before t d.index again d.before;
        stops = elim d.stops [
          | inl final ↦ inl (ap (λ n. is_retried (judged (fn n))) (sym there) ∙ final)
          | inr last ↦ inr (omega arith)
        ];
        reply = d.reply ∙ ap (λ n. judged (fn n)) there;
        calls = omega (arith, d.calls);
        sleeps =
            omega (
              arith,
              d.sleeps,
              length-append t.sleeps (delay policy attempt (jitter t.calls) ∷ []),
            );
        delays = λ h.
            d.delays (All-append _ t.sleeps _ h (delay-max policy attempt (jitter t.calls), tt));
      }

  last : (attempt : ℕ) → attempt + 0 ≡ policy.max_attempts → (attempt == policy.max_attempts) ≡ true
  last attempt e = ground arith

  not_last :
      (attempt left : ℕ)
      → attempt + suc left ≡ policy.max_attempts
      → (attempt == policy.max_attempts) ≡ false
  not_last attempt left e = ground arith

  loop-Decided :
      (left attempt : ℕ) (t : Trail)
      → attempt + left ≡ policy.max_attempts
      → Decided policy fn (suc left) t (retry_loop policy fn jitter (suc left) attempt t)
  unfolding retry_loop called slept
  loop-Decided zero attempt t e = elim (Bool-cases (is_retried (judged (fn t.calls)))) [
    | inr final ↦ rw final (ended zero t (inl final))
    | inl again ↦ rw (again, last attempt e) (ended zero t (inr refl))
  ]
  loop-Decided (suc left) attempt t e = elim (Bool-cases (is_retried (judged (fn t.calls)))) [
    | inr final ↦ rw final (ended (suc left) t (inl final))
    | inl again ↦
        rw (again, not_last attempt left e)
          (goes_on attempt (suc left) t _ again
            (loop-Decided left (attempt + 1) (slept attempt t) (omega arith)))
  ]

  -- A run of at most n > 0 attempts calls until the first reply that is not retried, or n times,
  -- returns the reply of its last call, with a server error as a status error, and sleeps once
  -- between two calls, never longer than the maximal delay.
  pub run-Decided :
      (n : ℕ) (t : Trail)
      → policy.max_attempts ≡ suc n
      → Decided policy fn (suc n) t (run policy fn jitter t)
  unfolding run
  run-Decided n t e =
      subst (λ m. Decided policy fn (suc n) t (retry_loop policy fn jitter m 1 t)) (sym e)
        (loop-Decided n 1 t (omega arith))
