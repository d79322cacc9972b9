-- ===== src/Application/PublishOutbox.antt =====
-- use_cases/publish_outbox.py: the pending messages go to the sink one by one, within one
-- transaction.
pub mod Delivered
pub mod Others
pub mod Drained
use rules_enrichment_daemon.Prelude.{ℕ, ◌+◌, List, [], ◌∷◌, ◌++◌}
use rules_enrichment_daemon.Domain.Errors.{Error, Result, ok, err}
use rules_enrichment_daemon.Domain.Processing.{OutboxMessage}
use rules_enrichment_daemon.Persistence.Session.{Session, commit, open_session, closed}
use rules_enrichment_daemon.Persistence.Repositories.{list_pending, mark_published, mark_failed}
use rules_enrichment_daemon.Application.Environment.{Env, World, Action, Delivery, back_in}

abbrev pub delivery_of : OutboxMessage → Delivery
delivery_of m = record { event_type = m.event_type; payload = m.payload_json }

-- `self._sink.publish(msg.event_type, msg.payload_json)`
unfoldable pub send : Env → OutboxMessage → Action (Unit {0})
send env m w = (
  env.sink w.calls m.event_type m.payload_json,
  record w { calls = w.calls + 1; deliveries = w.deliveries ++ delivery_of m ∷ [] },
)

-- the variables of the loop, and the world outside the transaction
pub record Publishing : Type 0 where
  pub world : World
  pub session : Session
  pub published : ℕ

-- the rest of the loop's body once the sink has answered; `mark_published` reads the clock
abbrev pub mark : Env → OutboxMessage → Result (Unit {0}) × World → Publishing → Publishing
mark env m (ok _, w) p = record {
  world = record w { clock_readings = w.clock_readings + 1 };
  session = (mark_published (env.clock w.clock_readings) m.message_id p.session).1;
  published = p.published + 1;
}
mark env m (err e, w) p = record {
  world = w;
  session = (mark_failed m.message_id p.session).1;
  published = p.published;
}

-- the loop
unfoldable pub publish_all : Env → List OutboxMessage → Publishing → Publishing
publish_all env [] p = p
publish_all env (m ∷ ms) p = publish_all env ms (mark env m (send env m p.world) p)

abbrev pub returned : ℕ → Result (Unit {0}) × Session → Result ℕ × Session
returned n (ok _, s) = (ok n, s)
returned n (err e, s) = (err e, s)

-- the block once the messages are read
abbrev pub publish_listed : Env → World → Result (List OutboxMessage) × Session → Result ℕ × World
publish_listed env w (err e, s) = back_in w (closed (err e, s))
publish_listed env w (ok ms, s) =
    let p = publish_all env ms (record { world = w; session = s; published = 0 }) in
    back_in p.world (closed (returned p.published (commit env.database p.session)))

-- `PublishOutboxMessagesUseCase.execute`
unfoldable pub publish_outbox : Env → ℕ → Action ℕ
publish_outbox env batch_size w =
    publish_listed env w (list_pending batch_size (open_session w.tables))
