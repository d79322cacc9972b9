-- ===== src/Bootstrap/Bounds.antt =====
-- What the settings bound.
use mathlib.Core.Path.{subst}
use rules_enrichment_daemon.Prelude.{
  ℕ, ◌+◌, ◌≤◌, String, ◌≡◌, refl, true, Option, arith, Bool-cases, inl, inr,
}
use rules_enrichment_daemon.Domain.Errors.{ok}
use rules_enrichment_daemon.Domain.Json.{Fields}
use rules_enrichment_daemon.Http.Retry.{Trail}
use rules_enrichment_daemon.Http.Retry.Attempts.{run-Decided}
use rules_enrichment_daemon.Http.Retry.Waits.{total, run-total}
use rules_enrichment_daemon.Http.Client.{Network, call, request}
use rules_enrichment_daemon.Bootstrap.Config.{Settings, within_bounds, validated}
use rules_enrichment_daemon.Bootstrap.{external_wms, enrichment_facade, retry_policy}

-- A request of the client that the daemon makes calls the server at most three times, at least once,
-- and sleeps at most 1.25 seconds in all, if the jitter is at most the base delay.
pub external_wms-request :
    (s : Settings) (net : Network) (method path : String) (params : Option Fields)
    (headers : Fields)
    → (json : Option Fields) (t : Trail) → ((n : ℕ) → net.jitter n ≤ 250)
    → (t.calls + 1 ≤ (request (external_wms s) net method path params headers json t).1.calls)
      × ((request (external_wms s) net method path params headers json t).1.calls ≤ t.calls + 3)
      × (total (request (external_wms s) net method path params headers json t).1.sleeps
          ≤ total t.sleeps + 1250)
unfolding request external_wms
external_wms-request s net method path params headers json t small =
    let fn = call (external_wms s) net method path params headers json in
    let d = run-Decided (retry_policy 3) fn net.jitter 2 t refl in
    (
      omega (arith, d.calls),
      omega (arith, d.calls, d.within),
      run-total (retry_policy 3) fn net.jitter small 2 t refl,
    )

-- the bounds of what the facade gets
abbrev InBounds : Settings → Type 0
InBounds s =
    (1 ≤ s.poll_batch_size)
    × (s.poll_batch_size ≤ 500)
    × (1 ≤ s.rule_cache_ttl_seconds)
    × (1 ≤ s.max_processing_attempts)
    × (1 ≤ s.enrichment_version)

within_bounds-InBounds : (s : Settings) → within_bounds s ≡ true → InBounds s
unfolding within_bounds
within_bounds-InBounds s h = (ground arith, ground arith, ground arith, ground arith, ground arith)

-- Settings that are accepted give the facade a batch of 1 to 500 orders, a time to live of the cache
-- and a number of attempts of at least one.
pub validated-enrichment_facade :
    (s s' : Settings)
    → validated s ≡ ok s'
    → (1 ≤ (enrichment_facade s').poll_batch_size)
      × ((enrichment_facade s').poll_batch_size ≤ 500)
      × (1 ≤ (enrichment_facade s').rule_cache_ttl_seconds)
      × (1 ≤ (enrichment_facade s').process.max_processing_attempts)
      × (1 ≤ (enrichment_facade s').process.enrichment_version)
unfolding validated enrichment_facade within_bounds
validated-enrichment_facade s s' h = elim (Bool-cases (within_bounds s)) [
  | inl fine ↦ subst InBounds (same fine) (within_bounds-InBounds s fine)
  | inr bad ↦ cc
]
  where
    same : within_bounds s ≡ true → s ≡ s'
    same fine = cc
