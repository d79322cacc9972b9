-- ===== src/Workers/Stopping.antt =====
-- `run_forever` and `stop` of both workers. `stop()` comes from another thread and only clears the
-- flag; `stops i` says whether it is called during the i-th pass, its sleep included. The flag is
-- set when the loop begins, so that a call before has no effect.
use rules_enrichment_daemon.Prelude.{
  ℕ, zero, suc, ◌<◌, ◌≡◌, refl, ◌∙◌, ap, sym, Bool, true, false, not, arith,
}
use rules_enrichment_daemon.Domain.Errors.{Result, ok, err}
use rules_enrichment_daemon.Exec.{Exec, pure, continue, ◌>>◌}
use rules_enrichment_daemon.Application.Environment.{Env, World, Action}
use rules_enrichment_daemon.Application.Facade.{FacadeSettings}
use rules_enrichment_daemon.Workers.{
  Running, poll_once, publish_once, publisher_passes, polling_passes,
}

-- `while self._running: pass`, and whether the flag has ended it within the fuel
unfoldable pub while_running :
    {S A : Type 0} → (fuel : ℕ) → Exec S A → (ℕ → Bool) → (running : Bool) → Exec S Bool
while_running fuel pass stops false = pure true
while_running zero pass stops true = pure false
while_running (suc fuel) pass stops true =
    pass >> while_running fuel pass (λ i. stops (suc i)) (not (stops 0))

-- `OutboxPublisherWorker.run_forever`
unfoldable pub publisher_forever : Env → (fuel : ℕ) → (ℕ → Bool) → Action Bool
unfolding while_running
publisher_forever env fuel stops = while_running fuel (publish_once env) stops true

-- `PollingWorker.run_forever`
unfoldable pub polling_forever : Env → FacadeSettings → (fuel : ℕ) → (ℕ → Bool) → Exec Running Bool
unfolding while_running
polling_forever env settings fuel stops = while_running fuel (poll_once env settings) stops true

-- `stop` is called during pass `k` for the first time
abbrev pub StopsAt : (ℕ → Bool) → ℕ → Type 0
StopsAt stops zero = stops 0 ≡ true
StopsAt stops (suc k) = (stops 0 ≡ false) × StopsAt (λ i. stops (suc i)) k

module _ {S A : Type 0} where
  -- the first passes
  abbrev passes : ℕ → Exec S A → Exec S (Unit {0})
  passes zero pass = pure tt
  passes (suc n) pass = pass >> passes n pass

  continue_ext :
      {B : Type 0} (x : Result A × S) (f g : A → Exec S B)
      → ((a : A) (s : S) → f a s ≡ g a s)
      → continue x f ≡ continue x g
  continue_ext (ok a, s) f g h = h a s
  continue_ext (err e, s) f g h = refl

  continue_assoc :
      {B C : Type 0} (x : Result A × S) (f : A → Exec S B) (g : B → Exec S C)
      → continue (continue x f) g ≡ continue x (λ a s. continue (f a s) g)
  continue_assoc (ok a, s) f g = refl
  continue_assoc (err e, s) f g = refl

  while_running_off :
      (fuel : ℕ) (pass : Exec S A) (stops : ℕ → Bool) (s : S)
      → while_running fuel pass stops false s ≡ (ok true, s)
  unfolding while_running
  while_running_off zero pass stops s = refl
  while_running_off (suc fuel) pass stops s = refl

  while_running-passes :
      (pass : Exec S A) (k fuel : ℕ) (stops : ℕ → Bool)
      → k < fuel
      → StopsAt stops k
      → (s : S) → while_running fuel pass stops true s ≡ (passes (suc k) pass >> pure true) s
  unfolding while_running
  while_running-passes pass k zero stops enough stopped s = absurd (omega arith)
  while_running-passes pass zero (suc fuel) stops enough stopped s =
      continue_ext (pass s) _ _
        (λ a s'. rw stopped (while_running_off fuel pass (λ i. stops (suc i)) s'))
      ∙ sym (continue_assoc (pass s) (λ _. passes zero pass) (λ _. pure true))
  while_running-passes pass (suc k) (suc fuel) stops enough stopped s =
      continue_ext (pass s) _ _ (λ a s'.
        rw stopped.0
          (while_running-passes pass k fuel (λ i. stops (suc i)) (omega arith) stopped.1 s'))
      ∙ sym (continue_assoc (pass s) (λ _. passes (suc k) pass) (λ _. pure true))

publisher_passes-eq : (env : Env) (n : ℕ) → publisher_passes env n ≡ passes n (publish_once env)
unfolding publisher_passes
publisher_passes-eq env zero = refl
publisher_passes-eq env (suc n) = ap (λ rest. publish_once env >> rest) (publisher_passes-eq env n)

polling_passes-eq :
    (env : Env) (settings : FacadeSettings) (n : ℕ)
    → polling_passes env settings n ≡ passes n (poll_once env settings)
unfolding polling_passes
polling_passes-eq env settings zero = refl
polling_passes-eq env settings (suc n) =
    ap (λ rest. poll_once env settings >> rest) (polling_passes-eq env settings n)

-- When `stop` is called during pass `k` of the publisher for the first time, the loop makes `k + 1`
-- passes and returns, or ends with what one of them raises.
pub publisher_forever-passes :
    (env : Env) (k fuel : ℕ) (stops : ℕ → Bool)
    → k < fuel
    → StopsAt stops k
    → (w : World)
    → publisher_forever env fuel stops w ≡ (publisher_passes env (suc k) >> pure true) w
unfolding publisher_forever
publisher_forever-passes env k fuel stops enough stopped w =
    while_running-passes (publish_once env) k fuel stops enough stopped w
    ∙ ap (λ m. (m >> pure true) w) (sym (publisher_passes-eq env (suc k)))

-- When `stop` is called during pass `k` of the poller for the first time, the loop makes `k + 1`
-- passes and returns, or ends with what one of them raises.
polling_forever-passes :
    (env : Env) (settings : FacadeSettings) (k fuel : ℕ) (stops : ℕ → Bool)
    → k < fuel
    → StopsAt stops k
    → (r : Running)
    → polling_forever env settings fuel stops r
      ≡ (polling_passes env settings (suc k) >> pure true) r
unfolding polling_forever
polling_forever-passes env settings k fuel stops enough stopped r =
    while_running-passes (poll_once env settings) k fuel stops enough stopped r
    ∙ ap (λ m. (m >> pure true) r) (sym (polling_passes-eq env settings (suc k)))
