-- ===== src/Bootstrap/Logged.antt =====
-- The publisher with the sink that writes to the log.
use rules_enrichment_daemon.Prelude.{
  ℕ, ◌+◌, String, ◌≡◌, refl, ◌≢◌, List, [], ◌∷◌, length, arith, eq_iff, Bool-cases, inl, inr,
  str_eq,
}
use rules_enrichment_daemon.Domain.Errors.{Error, Result, ok, err}
use rules_enrichment_daemon.Domain.Json.{Fields}
use rules_enrichment_daemon.Domain.Processing.{OutboxMessage}
use rules_enrichment_daemon.Persistence.Repositories.{to_outboxes, pending_rows}
use rules_enrichment_daemon.Application.Environment.{Env, World}
use rules_enrichment_daemon.Application.PublishOutbox.{
  Publishing, send, mark, publish_all, publish_outbox,
}
use rules_enrichment_daemon.Application.PublishOutbox.Delivered.{
  started, finished, publish_outbox-cases,
}
use rules_enrichment_daemon.Bootstrap.Config.{Settings}
use rules_enrichment_daemon.Bootstrap.Sinks.{publish}
use rules_enrichment_daemon.Bootstrap.{outbox_sink, with_sink}

module _ (env : Env)
    (accepts : (n : ℕ) (event : String) (payload : Fields) → env.sink n event payload ≡ ok tt) where
  mark-published :
      (m : OutboxMessage) (x : Result (Unit {0}) × World) (p : Publishing)
      → x.0 ≡ ok tt
      → (mark env m x p).published ≡ p.published + 1
  mark-published m (ok u, w) p h = refl
  mark-published m (err e, w) p h = cc

  publish_all-published :
      (ms : List OutboxMessage) (p : Publishing)
      → (publish_all env ms p).published ≡ p.published + length ms
  unfolding publish_all send
  publish_all-published [] p = omega arith
  publish_all-published (m ∷ ms) p = omega (
    arith,
    mark-published m (send env m p.world) p (accepts p.world.calls m.event_type m.payload_json),
    publish_all-published ms (mark env m (send env m p.world) p),
  )

log_sink-accepts :
    (s : Settings) (post : ℕ → String → Fields → Result ℕ) (status_error : ℕ → Error) (env : Env)
    → s.outbox_sink_mode ≢ "webhook"
    → (n : ℕ) (event : String) (payload : Fields)
    → (with_sink s post status_error env).sink n event payload ≡ ok tt
unfolding with_sink outbox_sink publish
log_sink-accepts s post status_error env other n event payload =
    elim (Bool-cases (str_eq s.outbox_sink_mode "webhook")) [
      | inl same ↦ absurd (ground (arith, eq_iff s.outbox_sink_mode "webhook", other))
      | inr differs ↦ rw differs refl
    ]

-- Unless the sink mode is "webhook", publishing that returns has published every message that it
-- read: none is refused.
pub publish_outbox-logged :
    (s : Settings) (post : ℕ → String → Fields → Result ℕ) (status_error : ℕ → Error) (env : Env)
    → s.outbox_sink_mode ≢ "webhook"
    → (batch_size : ℕ) (w : World) {ms : List OutboxMessage} {n : ℕ}
    → to_outboxes (pending_rows batch_size w.tables.outbox_messages) ≡ ok ms
    → (publish_outbox (with_sink s post status_error env) batch_size w).0 ≡ ok n
    → n ≡ length ms
publish_outbox-logged s post status_error env other batch_size w {ms = ms} {n = n} listed returns =
    let env' = with_sink s post status_error env in
    let all =
      publish_all-published env' (log_sink-accepts s post status_error env other) ms (started w) in
    elim (publish_outbox-cases env' batch_size w listed) [
      | inl stored ↦ let same : (finished env' ms w).published ≡ n = cc in omega (arith, same, all)
      | inr (e, raised) ↦ cc
    ]
