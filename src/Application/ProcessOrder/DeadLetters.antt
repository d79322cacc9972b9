-- ===== src/Application/ProcessOrder/DeadLetters.antt =====
-- What happens when the attempts are used up: the payload of the dead letter holds the datetimes of
-- the order, which have no JSON form.
use rules_enrichment_daemon.Prelude.{
  String, ◌≡◌, refl, Bool, true, false, ◌&&◌, List, [], ◌∷◌, leb, inl, inr, ◌∙◌, Bool-cases,
  if◌then◌else◌,
}
use rules_enrichment_daemon.Domain.Errors.{Error, ok, err, statement_error, enrichment_submission}
use rules_enrichment_daemon.Domain.Datetime.{Datetime}
use rules_enrichment_daemon.Domain.Json.{str, obj, end, field, is_serializable, fields_serializable}
use rules_enrichment_daemon.Domain.Json.Dict.{update}
use rules_enrichment_daemon.Domain.Order.{ExternalOrder, asdict}
use rules_enrichment_daemon.Domain.Rule.{EnrichmentRule}
use rules_enrichment_daemon.Exec.{continue, raise}
use rules_enrichment_daemon.Persistence.Session.{all_serializable}
use rules_enrichment_daemon.Persistence.Session.Transactions.{commit-unserializable}
use rules_enrichment_daemon.Persistence.Repositories.{enqueue, save_dead_letter}
use rules_enrichment_daemon.Application.Environment.{Env, World, new_id, in_uow, error_text}
use rules_enrichment_daemon.Application.Payload.{submit_enrichment}
use rules_enrichment_daemon.Application.Recording.{ProcessingResult, persist, move_to_dead_letter}
use rules_enrichment_daemon.Application.Recording.Atomic.{persist-cases, recorded_dead_letters}
use rules_enrichment_daemon.Application.ProcessOrder.{
  ProcessSettings, Job, result_of, failed_event, give_up, on_failure, process_order,
}
use rules_enrichment_daemon.Application.ProcessOrder.Rules.{Keeps-process_order}

and-false : (b : Bool) → (b && false) ≡ false
and-false true = refl
and-false false = refl

-- `asdict` of an order is never serializable.
asdict-unserializable : (o : ExternalOrder) → fields_serializable (asdict o) ≡ false
unfolding asdict is_serializable
asdict-unserializable o = simp and-false

bound_unserializable :
    (o : ExternalOrder) (reason : String)
    → all_serializable (
        update (field "reason" (str reason) end) (field "order" (obj (asdict o)) end)
        ∷ field "order" (obj (asdict o)) end
        ∷ [])
      ≡ false
unfolding all_serializable is_serializable update
bound_unserializable o reason = rw asdict-unserializable

module _ (env : Env) (o : ExternalOrder) (correlation_id reason : String) (now : Datetime) where
  -- Moving an order to the dead letters always raises, and stores neither the item nor its event.
  pub move_to_dead_letter_raises :
      (w : World)
      → move_to_dead_letter env o.order_id correlation_id reason
          (field "order" (obj (asdict o)) end)
          now
          w
        ≡ (err statement_error, w)
  unfolding move_to_dead_letter in_uow enqueue save_dead_letter
  move_to_dead_letter_raises w =
      rw (commit-unserializable env.database, bound_unserializable o reason)

module _ (env : Env) (settings : ProcessSettings) where
  give_up-eq :
      (job : Job) (w : World)
      → give_up env settings job w ≡ (
        if leb settings.max_processing_attempts job.attempt_number
            then err statement_error
            else ok tt,
        w,
      )
  unfolding give_up
  give_up-eq job w = elim (Bool-cases (leb settings.max_processing_attempts job.attempt_number)) [
    | inl over ↦ rw over (
        move_to_dead_letter_raises env job.order job.correlation_id "max attempts exceeded" job.now
          w)
    | inr under ↦ rw under
  ]

  -- When a submission fails and its failure is recorded, the caller gets EnrichmentSubmissionError
  -- below the maximum of attempts. From the maximum on it gets the exception of the dead letter
  -- that cannot be stored, and the world is the one with the recorded failure alone.
  pub on_failure-eq :
      (job : Job) (e : Error) (w w' : World)
      → persist env (result_of job false (failed_event env job e)) w ≡ (ok tt, w')
      → on_failure env settings job e w ≡ (
        if leb settings.max_processing_attempts job.attempt_number
            then err statement_error
            else err (enrichment_submission (error_text env.runtime e)),
        w',
      )
  unfolding on_failure
  on_failure-eq job e w w' stored =
      rw (stored, give_up-eq job w')
        (ended (leb settings.max_processing_attempts job.attempt_number))
    where
      ended :
          (b : Bool)
          → continue
              (if b then err statement_error else ok tt, w')
              (λ _.
                raise {A = Bool × String × Bool} (enrichment_submission (error_text env.runtime e)))
            ≡ (
              if b
                  then err statement_error
                  else err (enrichment_submission (error_text env.runtime e)),
              w',
            )
      ended true = refl
      ended false = refl

  -- Processing an order never changes the dead letters, whatever fails and however often.
  pub process_order-dead_letters :
      (order : ExternalOrder) (rules : List EnrichmentRule) (now : Datetime) (w : World)
      → (process_order env settings order rules now w).1.tables.dead_letter_items
        ≡ w.tables.dead_letter_items
  process_order-dead_letters order rules now w =
      (Keeps-process_order env settings {P = Unchanged}
          (λ r. record { stays = λ v h. keep_persist r v h })
          (λ id p c. record { stays = λ v h. unfold submit_enrichment in h })
          (λ job reason. record { stays = λ v h. rw move_to_dead_letter_raises h }) order rules now
          (record { stays = λ v h. unfold new_id in h })).stays
        w refl
    where
      Unchanged : World → Type 0
      Unchanged v = v.tables.dead_letter_items ≡ w.tables.dead_letter_items

      keep_persist :
          (r : ProcessingResult) (v : World) → Unchanged v → Unchanged (persist env r v).1
      keep_persist r v h = elim (persist-cases env r v) [
        | inl stored ↦ rw stored (recorded_dead_letters r v.tables ∙ h)
        | inr (x, raised) ↦ rw raised h
      ]
