-- ===== src/Http/Retry.antt =====
-- infrastructure/http/retry/retry_policy.py. A request is tried until it is answered without a
-- server error, an exception comes that is not retried, or the attempts are used up. Delays are
-- whole multiples of a small unit; the rounding of floats is left out.
pub mod Attempts
pub mod Waits
use rules_enrichment_daemon.Prelude.{
  ℕ, zero, suc, ◌+◌, ◌-◌, ◌*◌, ◌^◌, String, Bool, true, false, not, List, [], ◌∷◌, ◌++◌, leb, ◌==◌,
  if◌then◌else◌,
}
use rules_enrichment_daemon.Domain.Errors.{Error, runtime_error}
use rules_enrichment_daemon.Domain.Json.{Json}

pub record Response : Type 0 where
  pub status_code : ℕ
  pub body : Json

-- the exceptions of httpx, and any other. `request_error` is an `httpx.HTTPError` that is neither a
-- timeout nor a transport nor a status error.
pub data HttpError : Type 0 where
  timeout transport status request_error : String → HttpError
  other_error : Error → HttpError

pub data Reply : Type 0 where
  answered : Response → Reply
  raised : HttpError → Reply

pub record RetryPolicy : Type 0 where
  pub max_attempts : ℕ
  pub base_delay : ℕ
  pub max_delay : ℕ

-- the calls made and the delays slept
pub record Trail : Type 0 where
  pub calls : ℕ
  pub sleeps : List ℕ

-- a server error is raised as a status error
unfoldable pub judged : Reply → Reply
judged (answered r) = if leb 500 r.status_code then raised (status "server error") else answered r
judged (raised e) = raised e

-- the exceptions of the `except` line
abbrev pub is_caught : HttpError → Bool
is_caught (timeout m) = true
is_caught (transport m) = true
is_caught (status m) = true
is_caught _ = false

abbrev pub is_retried : Reply → Bool
is_retried (answered r) = false
is_retried (raised e) = is_caught e

-- the smaller of two, the first if they are equal
abbrev pub min_delay : ℕ → ℕ → ℕ
min_delay a b = if leb a b then a else b

-- `min(max_delay, 2 ** (attempt - 1) * base_delay + jitter)`
unfoldable pub delay : RetryPolicy → ℕ → ℕ → ℕ
delay policy attempt jitter =
    min_delay policy.max_delay (2 ^ (attempt - 1) * policy.base_delay + jitter)

-- what follows one call: the reply stands, or a delay and the next attempt
abbrev pub after_reply : RetryPolicy → ℕ → Reply → Reply × Trail → Trail → Reply × Trail
after_reply policy attempt reply next t =
    if not (is_retried reply)
    then (reply, t)
    else if attempt == policy.max_attempts
    then (reply, t)
    else next

-- the loop with the given number of attempts left; `fn` and `jitter` answer by the number of the
-- call
unfoldable pub retry_loop : RetryPolicy → (ℕ → Reply) → (ℕ → ℕ) → ℕ → ℕ → Trail → Reply × Trail
retry_loop policy fn jitter zero attempt t =
    (raised (other_error (runtime_error "retry policy failed unexpectedly")), t)
retry_loop policy fn jitter (suc left) attempt t =
    let called = record t { calls = t.calls + 1 } in
    let next =
      retry_loop policy fn jitter left (attempt + 1)
        (record called { sleeps = t.sleeps ++ delay policy attempt (jitter t.calls) ∷ [] }) in
    after_reply policy attempt (judged (fn t.calls)) next called

-- `RetryPolicy.run`
unfoldable pub run : RetryPolicy → (ℕ → Reply) → (ℕ → ℕ) → Trail → Reply × Trail
run policy fn jitter t = retry_loop policy fn jitter policy.max_attempts 1 t
