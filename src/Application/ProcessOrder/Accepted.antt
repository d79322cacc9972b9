-- ===== src/Application/ProcessOrder/Accepted.antt =====
-- What the external API has answered when processing an order returns.
use rules_enrichment_daemon.Prelude.{
  ℕ, String, ◌≡◌, refl, ◌∙◌, ap, sym, Bool, true, false, List, inl, inr,
}
use rules_enrichment_daemon.Domain.Errors.{Error, Result, ok, err, Result-cases}
use rules_enrichment_daemon.Domain.Datetime.{Datetime}
use rules_enrichment_daemon.Domain.Order.{ExternalOrder}
use rules_enrichment_daemon.Domain.Rule.{EnrichmentRule}
use rules_enrichment_daemon.Domain.Evaluation.{EnrichmentDecision, has_matches, evaluate}
use rules_enrichment_daemon.Exec.Ensures.{Ensures, Ensures-elim, Ensures-handle, Ensures-after}
use rules_enrichment_daemon.Application.Environment.{Env, World, Submission}
use rules_enrichment_daemon.Application.Payload.{submit_enrichment, compute_hash}
use rules_enrichment_daemon.Application.Recording.{persist}
use rules_enrichment_daemon.Application.ProcessOrder.{
  ProcessSettings, Job, is_duplicate, result_of, failed_event, submit_and_persist, give_up,
  on_failure, enrich, conclude, process_order,
}
use rules_enrichment_daemon.Application.ProcessOrder.Idempotency.{
  job_of, stored_order, next_id, process_order-eq,
}
use rules_enrichment_daemon.Application.ProcessOrder.Submissions.{submission_of}

-- the external API accepts the n-th request
abbrev pub IsAccepted : Env → ℕ → Submission → Type 0
IsAccepted env n s = env.submit n s.order_id s.payload s.correlation_id ≡ ok tt

always-Ensures : {S A : Type 0} {C : Type 0} (c : C) (x : Result A × S) → Ensures (λ s. C) x
always-Ensures c (ok a, s) = c
always-Ensures c (err e, s) = tt

module _ (env : Env) (settings : ProcessSettings) (job : Job) where
  on_failure_raises :
      (C : Type 0) (e : Error) (w : World) → Ensures (λ v. C) (on_failure env settings job e w)
  unfolding on_failure
  on_failure_raises C e w =
      Ensures-after (λ v. C) (persist env (result_of job false (failed_event env job e)) w) _
        (λ a v. Ensures-after (λ v. C) (give_up env settings job v) _ (λ b u. tt))

  enrich-IsAccepted :
      (w : World)
      → Ensures
          (λ v. IsAccepted env w.calls (submission_of settings job))
          (enrich env settings job w)
  unfolding enrich submit_and_persist submit_enrichment
  enrich-IsAccepted w =
      let s = submission_of settings job in
      Ensures-handle (λ v. IsAccepted env w.calls s) (submit_and_persist env settings job w)
        (on_failure env settings job)
        (elim (Result-cases (env.submit w.calls s.order_id s.payload s.correlation_id)) [
          | inl (u, accepted) ↦ always-Ensures accepted (submit_and_persist env settings job w)
          | inr (e, failed) ↦ rw failed tt
        ])
        (on_failure_raises (IsAccepted env w.calls s))

module _ (env : Env) (settings : ProcessSettings) (order : ExternalOrder)
    (rules : List EnrichmentRule) (now : Datetime) (w : World) where
  -- When an order has matching rules and a new hash and its processing returns, the external API has
  -- accepted the request.
  pub process_order-IsAccepted :
      {d : EnrichmentDecision} {hash : String} {x : Bool × String × Bool}
      → evaluate env.runtime order rules now ≡ ok d
      → compute_hash env.runtime order d.enriched_fields ≡ ok hash
      → has_matches d ≡ true
      → is_duplicate (stored_order order.order_id w.tables) hash ≡ false
      → (process_order env settings order rules now w).0 ≡ ok x
      → IsAccepted env w.calls (submission_of settings (job_of env order now w d hash))
  unfolding conclude
  process_order-IsAccepted {d} {hash} evaluated hashed matched fresh returns =
      let job = job_of env order now w d hash in
      let start = next_id env settings order rules now w in
      let ends : process_order env settings order rules now w ≡ enrich env settings job start =
        process_order-eq env settings order rules now w evaluated hashed
        ∙ rw (fresh, matched) refl in
      Ensures-elim (λ v. IsAccepted env w.calls (submission_of settings job))
        (enrich env settings job start) (enrich-IsAccepted env settings job start)
        (ap (λ z. z.0) (sym ends) ∙ returns)
