-- ===== src/Bootstrap/Connected.antt =====
-- Submissions through the client that the settings give.
use Prim.Native.String.{◌++◌}
use rules_enrichment_daemon.Prelude.{
  ℕ, ◌+◌, ◌≤◌, ◌<◌, String, ◌≡◌, refl, none, some, Bool, true, false, List, [],
}
use rules_enrichment_daemon.Domain.Errors.{Error, Result, ok, err, Result-cases}
use rules_enrichment_daemon.Domain.Errors as Errors
use rules_enrichment_daemon.Domain.Json.{str, Fields, end, field}
use rules_enrichment_daemon.Application.Environment.{Env, World, Submission}
use rules_enrichment_daemon.Http.Retry.{Response, answered}
use rules_enrichment_daemon.Http.Client.{Network, call, submit_enrichment}
use rules_enrichment_daemon.Http.Client.Answers.{request-ok}
use rules_enrichment_daemon.Bootstrap.Config.{Settings}
use rules_enrichment_daemon.Bootstrap.{external_wms, with_sink, enrichment_facade, connected}
use rules_enrichment_daemon.Domain.Datetime.{Datetime}
use rules_enrichment_daemon.Domain.Order.{ExternalOrder}
use rules_enrichment_daemon.Domain.Rule.{EnrichmentRule}
use rules_enrichment_daemon.Domain.Evaluation.{EnrichmentDecision, has_matches, evaluate}
use rules_enrichment_daemon.Application.Payload.{compute_hash}
use rules_enrichment_daemon.Application.ProcessOrder.{is_duplicate, process_order}
use rules_enrichment_daemon.Application.ProcessOrder.Idempotency.{job_of, stored_order}
use rules_enrichment_daemon.Application.ProcessOrder.Submissions.{submission_of}
use rules_enrichment_daemon.Application.ProcessOrder.Accepted.{process_order-IsAccepted}

returned_response :
    (x : Result Response)
    → ◌≡◌ {A = Result (Unit {0})} (Errors.◌>>=◌ x (λ _. ok tt)) (ok tt)
    → (r : Response) × (x ≡ ok r)
returned_response (ok r) h = (r, refl)
returned_response (err e) h = cc

-- A submission of the daemon succeeds only if the server has answered one of its first three calls
-- with a status of 200 to 299.
pub connected-submit :
    (s : Settings) (nets : ℕ → Network) (post : ℕ → String → Fields → Result ℕ)
    → (status_error : ℕ → Error) (env : Env) (n : ℕ) (order_id : String) (payload : Fields)
    → (correlation_id : String)
    → (connected s nets post status_error env).submit n order_id payload correlation_id ≡ ok tt
    → (i : ℕ) × (r : Response) × (i ≤ 2)
      × (200 ≤ r.status_code)
      × (r.status_code < 300)
      × (call
            (external_wms s)
            (nets n)
            "POST"
            ("/api/v1/orders/" ++ order_id ++ "/enrichment")
            none
            (field "X-Correlation-ID" (str correlation_id) end)
            (some payload)
            (0 + i)
          ≡ answered r)
unfolding connected submit_enrichment external_wms
connected-submit s nets post status_error env n order_id payload correlation_id done =
    let (r, returns) = returned_response _ done in
    let (low, high, (i, few, answers, calls)) =
      request-ok (external_wms s) (nets n) "POST" ("/api/v1/orders/" ++ order_id ++ "/enrichment")
        none (field "X-Correlation-ID" (str correlation_id) end) (some payload) 2
        (record { calls = 0; sleeps = [] }) refl returns in
    (i, r, few, low, high, answers)

-- the n-th network's server has answered one of the first three calls for the submission with a
-- status of 200 to 299
abbrev pub IsAnswered : Settings → Network → Submission → Type 0
IsAnswered s net sent =
    (i : ℕ) × (r : Response) × (i ≤ 2)
    × (200 ≤ r.status_code)
    × (r.status_code < 300)
    × (call (external_wms s) net "POST" ("/api/v1/orders/" ++ sent.order_id ++ "/enrichment") none
          (field "X-Correlation-ID" (str sent.correlation_id) end) (some sent.payload) (0 + i)
        ≡ answered r)

module _ (s : Settings) (nets : ℕ → Network) (post : ℕ → String → Fields → Result ℕ)
    (status_error : ℕ → Error) (outside : Env) where
  abbrev env : Env
  env = connected s nets post status_error outside

  -- When an order has matching rules and a new hash, its processing with the bootstrapped client
  -- returns only if the server has answered one of the first three calls that submit the order's
  -- enrichment with a status of 200 to 299.
  pub process_order-IsAnswered :
      (order : ExternalOrder) (rules : List EnrichmentRule) (now : Datetime) (w : World)
      → {d : EnrichmentDecision} {hash : String} {x : Bool × String × Bool}
      → evaluate outside.runtime order rules now ≡ ok d
      → compute_hash outside.runtime order d.enriched_fields ≡ ok hash
      → has_matches d ≡ true
      → is_duplicate (stored_order order.order_id w.tables) hash ≡ false
      → (process_order
          (connected s nets post status_error outside)
          (enrichment_facade s).process
          order
          rules
          now
          w).0
        ≡ ok x
      → IsAnswered s (nets w.calls) (
          submission_of
            (enrichment_facade s).process
            (job_of (connected s nets post status_error outside) order now w d hash))
  unfolding connected with_sink
  process_order-IsAnswered order rules now w evaluated hashed matched fresh returns =
      connected-submit s nets post status_error outside w.calls _ _ _ (
        process_order-IsAccepted env (enrichment_facade s).process order rules now w evaluated
          hashed matched fresh returns)
