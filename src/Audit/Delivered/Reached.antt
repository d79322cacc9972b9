-- ===== src/Audit/Delivered/Reached.antt =====
-- Commands and the marks of the outbox.
use rules_enrichment_daemon.Prelude.{
  ◌≡◌, refl, false, [], ◌∷◌, All-append, arith, eq_iff, List, inl, inr,
}
use rules_enrichment_daemon.Exec.Keeps.{Keeps}
use rules_enrichment_daemon.Persistence.Models.{Tables, EnrichmentRuleModel, no_rows}
use rules_enrichment_daemon.Persistence.Mappers.{outbox_row}
use rules_enrichment_daemon.Persistence.Session.{open_session, violates_keys, has_duplicate}
use rules_enrichment_daemon.Persistence.Session.Transactions.{commit-cases_keys}
use rules_enrichment_daemon.Application.Environment.{Env, World, Delivery, in_uow}
use rules_enrichment_daemon.Application.Recording.{ProcessingResult, event_of, persist}
use rules_enrichment_daemon.Application.Recording.Atomic.{
  written, write_result-eq, committed-written, recorded, recorded_outbox,
}
use rules_enrichment_daemon.Application.PublishOutbox.Drained.{message_ids-distinct}
use rules_enrichment_daemon.Application.Facade.Keeping.{process_order-Keeps}
use rules_enrichment_daemon.Cli.Commands.{Reach}
use rules_enrichment_daemon.Cli.Commands.Keeping.{Reach-InWorld}
use rules_enrichment_daemon.Audit.Kept.{others_of, with_rules, seed_rules-keeps}
use rules_enrichment_daemon.Audit.Delivered.{WasSent, IsDelivered}
use rules_enrichment_daemon.Audit.Delivered.Publishing.{publish_outbox-IsDelivered}

-- a new event is pending
recorded-IsDelivered :
    (r : ProcessingResult) (t : Tables) (ds : List Delivery)
    → violates_keys (recorded r t) ≡ false
    → IsDelivered t ds
    → IsDelivered (recorded r t) ds
unfolding outbox_row
recorded-IsDelivered r t ds free h = record {
  distinct = message_ids-distinct (recorded r t) free;
  delivered = rw (recorded_outbox r t) (
      All-append (WasSent ds) t.outbox_messages (outbox_row (event_of r) ∷ []) h.delivered
        (λ done. absurd (ground (arith, eq_iff "PENDING" "PUBLISHED")), tt));
}

persist-IsDelivered :
    (env : Env) (r : ProcessingResult)
    → Keeps (λ w. IsDelivered w.tables w.deliveries) (persist env r)
unfolding persist in_uow
persist-IsDelivered env r = record {
  stays = λ w h. elim (commit-cases_keys env.database (written r (open_session w.tables))) [
    | inl (stored, free) ↦
        rw (write_result-eq r (open_session w.tables), stored)
          (recorded-IsDelivered r w.tables w.deliveries free h)
    | inr (e, raised) ↦ rw (write_result-eq r (open_session w.tables), raised, committed-written) h
  ];
}

with_rules-IsDelivered :
    (rows : List EnrichmentRuleModel) (t : Tables) (ds : List Delivery)
    → IsDelivered t ds
    → IsDelivered (with_rules rows (others_of t)) ds
with_rules-IsDelivered rows t ds h = record { distinct = h.distinct; delivered = h.delivered }

-- A database without rows has no mark.
pub no_rows-IsDelivered : (ds : List Delivery) → IsDelivered no_rows ds
unfolding has_duplicate
no_rows-IsDelivered ds = record { distinct = refl; delivered = tt }

-- Whatever commands run one after the other, in whatever environments and with whatever settings, if
-- the messages of the outbox have distinct ids and each one that is marked as published was handed
-- to the sink with its type and its payload, then this stays so.
pub Reach-IsDelivered :
    {start w : World}
    → IsDelivered start.tables start.deliveries
    → Reach start w
    → IsDelivered w.tables w.deliveries
Reach-IsDelivered =
    Reach-InWorld IsDelivered
      (λ env settings. process_order-Keeps env settings IsDelivered (persist-IsDelivered env))
      (λ env n. record { stays = publish_outbox-IsDelivered env n })
      λ env force. record { stays = seed_rules-keeps IsDelivered with_rules-IsDelivered env force }
