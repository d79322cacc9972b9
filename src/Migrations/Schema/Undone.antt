-- ===== src/Migrations/Schema/Undone.antt =====
-- The upgrade of the first migration and its downgrade.
use rules_enrichment_daemon.Prelude.{
  Bool, true, false, ◌&&◌, ◌≡◌, refl, ◌∙◌, ap, sym, arith, List, [], ◌∷◌, ◌++◌, inl, inr,
}
use rules_enrichment_daemon.Domain.Errors.{Result, ok, ◌>>=◌, Result-cases}
use rules_enrichment_daemon.Migrations.Schema.{
  Operation, create_table, create_index, drop_index, drop_table, run_all, upgrade, downgrade,
}

-- the operation that undoes a creation
abbrev pub undo : Operation → Operation
undo (create_table t) = drop_table t.name
undo (create_index i) = drop_index i.name i.table
undo op = op

abbrev undo_all : List Operation → List Operation
undo_all [] = []
undo_all (op ∷ ops) = undo_all ops ++ undo op ∷ []

abbrev pub creates : Operation → Bool
creates (create_table t) = true
creates (create_index i) = true
creates _ = false

abbrev only_creates : List Operation → Bool
only_creates [] = true
only_creates (op ∷ ops) = creates op && only_creates ops

downgrade_undoes : downgrade ≡ undo_all upgrade
downgrade_undoes = refl

module _ {Schema : Type 0} (apply : Operation → Schema → Result Schema)
    (Well : Schema → Type 0) where
  run_all-append :
      (xs ys : List Operation) (s : Schema)
      → run_all apply (xs ++ ys) s ≡ (run_all apply xs s >>= λ s'. run_all apply ys s')
  unfolding run_all
  run_all-append [] ys s = refl
  run_all-append (x ∷ xs) ys s = elim (Result-cases (apply x s)) [
    | inl (s', e) ↦ rw e (run_all-append xs ys s')
    | inr (e, failed) ↦ rw failed refl
  ]

  -- a creation that succeeds is undone by dropping what it created
  abbrev pub Drops : Type 0
  Drops =
      (op : Operation) (s s' : Schema)
      → creates op ≡ true
      → Well s
      → apply op s ≡ ok s'
      → (apply (undo op) s' ≡ ok s) × Well s'

  run_all-undo_all :
      (ops : List Operation) (s s' : Schema)
      → Drops
      → only_creates ops ≡ true
      → Well s
      → run_all apply ops s ≡ ok s'
      → run_all apply (undo_all ops) s' ≡ ok s
  unfolding run_all
  run_all-undo_all [] s s' drops created well done = cc
  run_all-undo_all (op ∷ ops) s s' drops created well done = elim (Result-cases (apply op s)) [
    | inl (s1, e) ↦
        let (back, well') = drops op s s1 (ground (arith, created)) well e in
        let rest =
          run_all-undo_all ops s1 s' drops (ground (arith, created)) well'
            (sym (ap (λ x. x >>= λ s'. run_all apply ops s') e) ∙ done) in
        run_all-append (undo_all ops) (undo op ∷ []) s' ∙ rw (rest, back) refl
    | inr (e, failed) ↦ cc
  ]

  -- If the database undoes a creation when it drops what was created, then the downgrade of the first
  -- migration succeeds wherever its upgrade has succeeded, and gives the schema back.
  pub downgrade-upgrade_schema :
      (s s' : Schema)
      → Drops
      → Well s
      → run_all apply upgrade s ≡ ok s'
      → run_all apply downgrade s' ≡ ok s
  downgrade-upgrade_schema s s' drops well done = run_all-undo_all upgrade s s' drops refl well done
