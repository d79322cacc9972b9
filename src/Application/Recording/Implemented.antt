-- ===== src/Application/Recording/Implemented.antt =====
-- The use case over SQLAlchemy beside the one over the ports.
use rules_enrichment_daemon.Prelude.{◌≡◌, refl, inl, inr, Bool-cases}
use rules_enrichment_daemon.Persistence.Session.{Session, open_session, commit}
use rules_enrichment_daemon.Persistence.Session.Transactions.{commit-cases}
use rules_enrichment_daemon.Persistence.Repositories.{save_attempt, save_processed, enqueue}
use rules_enrichment_daemon.Persistence.UnitOfWork.{sql_unit_of_work}
use rules_enrichment_daemon.Application.Environment.{Env, World, in_uow, back_in}
use rules_enrichment_daemon.Application.Ports.{within}
use rules_enrichment_daemon.Application.Recording.{ProcessingResult, write_result, persist}
use rules_enrichment_daemon.Application.Recording.Ported.{persist_block}
use rules_enrichment_daemon.Application.Recording.Atomic.{written, write_result-eq}

module _ (env : Env) (r : ProcessingResult) where
  block-eq :
      (s : Session)
      → persist_block (sql_unit_of_work env.database) r s ≡ commit env.database (written r s)
  unfolding persist_block write_result save_attempt save_processed enqueue
  block-eq s = elim (Bool-cases r.success) [ inl won ↦ rw won refl | inr lost ↦ rw lost refl ]

  -- `persist`, which the other theorems are about, is the use case over the ports with the
  -- SQLAlchemy unit of work.
  persist-eq :
      (w : World)
      → persist env r w
        ≡ back_in w (
            within
              (sql_unit_of_work env.database)
              (persist_block (sql_unit_of_work env.database) r)
              w.tables)
  unfolding persist in_uow
  persist-eq w =
      let s = written r (open_session w.tables) in
      elim (commit-cases env.database s) [
        | inl stored ↦ rw (write_result-eq, block-eq, stored) refl
        | inr (e, raised) ↦ rw (write_result-eq, block-eq, raised) refl
      ]
