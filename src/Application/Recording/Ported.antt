-- ===== src/Application/Recording/Ported.antt =====
-- use_cases/persist_processing_result.py over any unit of work.
use rules_enrichment_daemon.Prelude.{
  ℕ, ◌+◌, max, sym, some, str_eq, eq_iff, arith, String, ◌≡◌, refl, ◌∙◌, ap, true, ◌⊎◌, inl, inr,
  Bool-cases, if◌then◌else◌,
}
use rules_enrichment_daemon.Domain.Errors.{Error, ok, err}
use rules_enrichment_daemon.Exec.{Exec, pure, ◌>>◌}
use rules_enrichment_daemon.Application.Ports.{UnitOfWork, within}
use rules_enrichment_daemon.Application.Ports.Laws.{Ledger, with_processed, with_attempt, IsLawful}
use rules_enrichment_daemon.Application.Recording.{
  ProcessingResult, build_attempt, processed_of, event_of,
}

-- the block of `PersistProcessingResultUseCase.execute`
unfoldable pub persist_block : (u : UnitOfWork) → ProcessingResult → Exec u.Session (Unit {0})
persist_block u r = do
  u.attempts.save (build_attempt r)
  if r.success then u.processed_orders.save (processed_of r) else pure tt
  u.outbox.enqueue (event_of r)
  u.commit

-- what a result adds to the ledger
abbrev pub noted : ProcessingResult → Ledger → Ledger
noted r l =
    if r.success
    then with_processed (processed_of r) (with_attempt (build_attempt r) l)
    else with_attempt (build_attempt r) l

module _ (u : UnitOfWork) (laws : IsLawful u) (r : ProcessingResult) where
  -- the branch on success
  save_success :
      (s : u.Session)
      → (s' : u.Session) × ((if r.success
              then u.processed_orders.save (processed_of r)
              else pure tt)
            s
          ≡ (ok tt, s'))
        × (laws.pending s' ≡ (
            if r.success then with_processed (processed_of r) (laws.pending s) else laws.pending s))
        × (laws.base s' ≡ laws.base s)
  save_success s = elim (Bool-cases r.success) [
    | inl won ↦ rw won (laws.save_processed (processed_of r) s)
    | inr unsuccessful ↦ rw unsuccessful (s, refl, refl, refl)
  ]

  noted_pending :
      (l l1 l2 l3 : Ledger)
      → l1 ≡ with_attempt (build_attempt r) l
      → l2 ≡ (if r.success then with_processed (processed_of r) l1 else l1)
      → l3 ≡ l2
      → l3 ≡ noted r l
  noted_pending l l1 l2 l3 e e' e'' = e'' ∙ e' ∙ rw e refl

  -- Over any lawful unit of work, persisting a result either returns and leaves the ledger with the
  -- attempt and, after a success, with the processed order, every other order as it was, or raises
  -- and leaves the store alone.
  persist_block-noted :
      (t : u.Store)
      → ((t' : u.Store) × (within u (persist_block u r) t ≡ (ok tt, t'))
          × (laws.view t' ≡ noted r (laws.view t)))
        ⊎ ((e : Error) × (within u (persist_block u r) t ≡ (err e, t)))
  unfolding persist_block
  persist_block-noted t =
      let s = u.enter t in
      let (s1, attempted, pending1, base1) = laws.save_attempt (build_attempt r) s in
      let (s2, processed, pending2, base2) = save_success s1 in
      let (s3, enqueued, pending3, base3) = laws.enqueue (event_of r) s2 in
      let same : laws.base s3 ≡ t = base3 ∙ base2 ∙ base1 ∙ laws.base-enter t in
      let note : laws.pending s3 ≡ noted r (laws.view t) =
        noted_pending _ _ _ _ pending1 pending2 pending3 ∙ ap (noted r) (laws.pending-enter t) in
      elim (laws.commit s3) [
        | inl (s4, stored, view4) ↦ inl (
          laws.base s4,
          rw (attempted, processed, enqueued, stored, laws.exit-base) refl,
          view4 ∙ note,
        )
        | inr (e, s4, raised, base4) ↦
            inr (e, rw (attempted, processed, enqueued, raised, laws.exit-base, base4, same) refl)
      ]

  noted_attempts :
      (l : Ledger) (id : String)
      → (noted r l).attempts id
        ≡ (if str_eq r.order_id id then max (l.attempts id) r.attempt_number else l.attempts id)
  noted_attempts l id = elim (Bool-cases r.success) [
    | inl won ↦ rw won refl
    | inr unsuccessful ↦ rw unsuccessful refl
  ]

  get-eq :
      (id : String) (t : u.Store)
      → (within u (u.processed_orders.get_by_order_id id) t).0 ≡ ok ((laws.view t).processed id)
  get-eq id t = rw (laws.get-enter id t) refl

  next-eq :
      (id : String) (t : u.Store)
      → (within u (u.attempts.get_next_attempt_number id) t).0 ≡ ok ((laws.view t).attempts id + 1)
  next-eq id t = rw (laws.next-enter id t) refl

  returned_view :
      (t t' : u.Store)
      → within u (persist_block u r) t ≡ (ok tt, t')
      → laws.view t' ≡ noted r (laws.view t)
  returned_view t t' returned = elim (persist_block-noted t) [
    | inl (t2, ran, seen) ↦ ap laws.view (ap (λ x. x.1) (sym returned ∙ ran)) ∙ seen
    | inr (e, raised) ↦ cc
  ]

  -- Over any lawful unit of work, when persisting a success returns, a new unit of work finds the
  -- processed order under its id, and under every other id what it found before.
  pub get-persist_block :
      (t t' : u.Store)
      → r.success ≡ true
      → within u (persist_block u r) t ≡ (ok tt, t')
      → (id : String)
      → (within u (u.processed_orders.get_by_order_id id) t').0 ≡ (
          if str_eq r.order_id id
          then ok (some (processed_of r))
          else (within u (u.processed_orders.get_by_order_id id) t).0)
  get-persist_block t t' won returned id =
      let noted_won : noted r (laws.view t)
          ≡ with_processed (processed_of r) (with_attempt (build_attempt r) (laws.view t)) =
        rw won refl in
      get-eq id t'
      ∙ ap (λ l. ok (l.processed id)) (returned_view t t' returned ∙ noted_won)
      ∙ elim (Bool-cases (str_eq r.order_id id)) [
        | inl same ↦ rw same refl
        | inr other ↦ rw (other, get-eq id t) refl
      ]

  -- Over any lawful unit of work, when persisting a result under the next number of its order
  -- returns, success or failure, the number after it is the next one of that order, and the other
  -- orders have the ones they had.
  pub next-persist_block :
      (t t' : u.Store) {n : ℕ}
      → (within u (u.attempts.get_next_attempt_number r.order_id) t).0 ≡ ok n
      → r.attempt_number ≡ n
      → within u (persist_block u r) t ≡ (ok tt, t')
      → (id : String)
      → (within u (u.attempts.get_next_attempt_number id) t').0 ≡ (
          if str_eq r.order_id id
          then ok (n + 1)
          else (within u (u.attempts.get_next_attempt_number id) t).0)
  next-persist_block t t' {n} was numbered returned id =
      let same_answer : ok ((laws.view t).attempts r.order_id + 1) ≡ ok n =
        sym (next-eq r.order_id t) ∙ was in
      let highest : (laws.view t).attempts r.order_id + 1 ≡ n = cc in
      next-eq id t'
      ∙ ap (λ l. ok (l.attempts id + 1)) (returned_view t t' returned)
      ∙ ap (λ k. ok (k + 1)) (noted_attempts (laws.view t) id)
      ∙ elim (Bool-cases (str_eq r.order_id id)) [
        | inl same ↦
            let own : r.order_id ≡ id = ground (arith, eq_iff r.order_id id) in
            rw same (
              ap (λ k. ok (k + 1))
                (omega (arith, highest, numbered, ap (laws.view t).attempts own)))
        | inr other ↦ rw (other, next-eq id t) refl
      ]
