-- ===== src/Audit/Reached.antt =====
-- Commands, and the tables as `IsAudited` sees them.
use rules_enrichment_daemon.Prelude.{ℕ, String, refl, List, All-map}
use rules_enrichment_daemon.Exec.Keeps.{Keeps}
use rules_enrichment_daemon.Persistence.Models.{
  Tables, EnrichmentRuleModel, OutboxMessageModel, ProcessingAttemptModel, no_rows,
}
use rules_enrichment_daemon.Persistence.Repositories.{as_published, as_failed}
use rules_enrichment_daemon.Persistence.Repositories.Rows.{Any-change_row}
use rules_enrichment_daemon.Application.Environment.{Env, World}
use rules_enrichment_daemon.Application.PublishOutbox.{publish_outbox}
use rules_enrichment_daemon.Cli.Commands.{Reach}
use rules_enrichment_daemon.Cli.Commands.Keeping.{Reach-InWorld}
use rules_enrichment_daemon.Audit.{Announces, IsAudited}
use rules_enrichment_daemon.Audit.Recorded.{process_order-IsAudited}
use rules_enrichment_daemon.Audit.Kept.{
  marked, publish_outbox-keeps, others_of, with_rules, seed_rules-keeps,
}

-- a change of a message that leaves its ids and its type
marked-IsAudited :
    (id : String) (change : OutboxMessageModel → OutboxMessageModel) (t : Tables)
    → ((a : ProcessingAttemptModel) (m : OutboxMessageModel)
        → Announces a m
        → Announces a (change m))
    → IsAudited t
    → IsAudited (marked id change t)
marked-IsAudited id change t keeps h = record {
  attested = h.attested;
  announced =
      All-map _ _
        (λ a.
          Any-change_row (Announces a) (λ m. m.message_id) id change t.outbox_messages (keeps a))
        t.processing_attempts h.announced;
  numbered = h.numbered;
  no_dead_letters = h.no_dead_letters;
}

with_rules-IsAudited :
    (rows : List EnrichmentRuleModel) (t : Tables)
    → IsAudited t
    → IsAudited (with_rules rows (others_of t))
with_rules-IsAudited rows t h = record {
  attested = h.attested;
  announced = h.announced;
  numbered = h.numbered;
  no_dead_letters = h.no_dead_letters;
}

publish_outbox-IsAudited :
    (env : Env) (n : ℕ) → Keeps (λ w. IsAudited w.tables) (publish_outbox env n)
publish_outbox-IsAudited env n = record {
  stays =
      publish_outbox-keeps IsAudited
        (λ id now t. marked-IsAudited id (as_published now) t λ a m h. record {
          message_id = h.message_id;
          aggregate_id = h.aggregate_id;
          event_type = h.event_type;
        })
        (λ id t. marked-IsAudited id as_failed t λ a m h. record {
          message_id = h.message_id;
          aggregate_id = h.aggregate_id;
          event_type = h.event_type;
        })
        env n;
}

-- A database without rows is audited.
pub no_rows-IsAudited : IsAudited no_rows
no_rows-IsAudited = record {
  attested = tt;
  announced = tt;
  numbered = λ id. refl;
  no_dead_letters = refl;
}

-- Whatever commands run one after the other, in whatever environments and with whatever settings,
-- audited tables stay audited: each processed order has a successful attempt with its correlation
-- id, each attempt has its event in the outbox, the attempts of an order are numbered from 1 in the
-- order of the table without a gap or a repetition, and there are no dead letters.
pub Reach-IsAudited :
    {start w : World} → IsAudited start.tables → Reach start w → IsAudited w.tables
Reach-IsAudited =
    Reach-InWorld (λ t ds. IsAudited t) process_order-IsAudited publish_outbox-IsAudited
      λ env force. record {
        stays =
            seed_rules-keeps (λ t ds. IsAudited t) (λ rows t ds. with_rules-IsAudited rows t) env
              force;
      }
