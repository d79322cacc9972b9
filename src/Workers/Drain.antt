-- ===== src/Workers/Drain.antt =====
-- What the publisher's loop leaves in the outbox.
use rules_enrichment_daemon.Prelude.{
  ℕ, zero, suc, ◌*◌, ◌≤◌, ◌≡◌, refl, none, List, [], ◌∷◌, length, arith,
}
use rules_enrichment_daemon.Domain.Errors.{ok}
use rules_enrichment_daemon.Persistence.Models.{Tables}
use rules_enrichment_daemon.Application.Environment.{Env, World}
use rules_enrichment_daemon.Application.PublishOutbox.{publish_outbox}
use rules_enrichment_daemon.Application.PublishOutbox.Drained.{
  pending, HasKeys, publish_outbox-round,
}
use rules_enrichment_daemon.Workers.{publish_once, publisher_passes}

nil_of_length : {A : Type 0} (xs : List A) → length xs ≤ 0 → xs ≡ []
nil_of_length [] h = refl
nil_of_length (x ∷ xs) h = absurd (omega arith)

-- what a returned answer is worth
pub returned_pair : {A B : Type 0} (x : A × B) {a : A} → x.0 ≡ a → x ≡ (a, x.1)
returned_pair x e = λ i. (e i, x.1)

-- If the database accepts every commit and the tables have distinct keys, `n` passes of the
-- publisher's loop return, and leave no message pending once `n` batches of 100 hold all that were
-- pending, whatever the sink answers.
pub publisher_passes-drain :
    (env : Env)
    → ((a b : Tables) → env.database a b ≡ none)
    → (n : ℕ) (w : World) → HasKeys w.tables
    → length (pending w) ≤ n * 100
    → (w' : World) × (publisher_passes env n w ≡ (ok tt, w'))
      × (pending w' ≡ [])
      × HasKeys w'.tables
unfolding publisher_passes publish_once
publisher_passes-drain env accepts zero w keys enough =
    (w, refl, nil_of_length (pending w) (omega arith), keys)
publisher_passes-drain env accepts (suc n) w keys enough =
    let (count, returns, keys', fewer) = publish_outbox-round env 100 w accepts keys in
    let (w', rest, empty, keys'') =
      publisher_passes-drain env accepts n (publish_outbox env 100 w).1 keys' (omega arith) in
    (w', rw (returned_pair (publish_outbox env 100 w) returns) rest, empty, keys'')
