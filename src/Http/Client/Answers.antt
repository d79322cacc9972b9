-- ===== src/Http/Client/Answers.antt =====
-- What the caller of the client gets.
use mathlib.Core.Path.{subst}
use rules_enrichment_daemon.Prelude.{
  ℕ, suc, ◌+◌, ◌≤◌, ◌<◌, String, ◌≡◌, refl, ◌∙◌, sym, true, ◌&&◌, leb, ltb, Option, inl, inr,
  Bool-cases, arith,
}
use rules_enrichment_daemon.Domain.Errors.{ok}
use rules_enrichment_daemon.Domain.Json.{Fields}
use rules_enrichment_daemon.Http.Retry.{
  Response, timeout, transport, status, request_error, other_error, Reply, answered, raised, Trail,
  judged,
}
use rules_enrichment_daemon.Http.Retry.Attempts.{run-Decided}
use rules_enrichment_daemon.Http.Client.{
  ClientSettings, Network, raise_for_status, translated, call, request,
}

judged-answered : (x : Reply) {r : Response} → judged x ≡ answered r → x ≡ answered r
unfolding judged
judged-answered (answered r) h = elim (Bool-cases (leb 500 r.status_code)) [
  | inl server ↦ cc
  | inr fine ↦ cc
]
judged-answered (raised e) h = cc

raise_for_status-ok :
    (net : Network) (x : Reply) {r : Response}
    → translated (raise_for_status net x) ≡ ok r
    → (x ≡ answered r) × (200 ≤ r.status_code) × (r.status_code < 300)
unfolding translated raise_for_status
raise_for_status-ok net (answered r) {r = r'} h =
    elim (Bool-cases (leb 200 r.status_code && ltb r.status_code 300)) [
      | inl fine ↦
          subst
            (λ (q : Response).
              (answered r ≡ answered q) × (200 ≤ q.status_code) × (q.status_code < 300))
            (same fine) (refl, ground arith, ground arith)
      | inr bad ↦ cc
    ]
  where
    same : (leb 200 r.status_code && ltb r.status_code 300) ≡ true → r ≡ r'
    same fine = cc
raise_for_status-ok net (raised (timeout m)) h = cc
raise_for_status-ok net (raised (transport m)) h = cc
raise_for_status-ok net (raised (status m)) h = cc
raise_for_status-ok net (raised (request_error m)) h = cc
raise_for_status-ok net (raised (other_error e)) h = cc

module _ (settings : ClientSettings) (net : Network) (method path : String) (params : Option Fields)
    (headers : Fields) (json : Option Fields) (n : ℕ) (t : Trail) where
  -- A request that returns, of a client that tries n > 0 times, gives a response of status 200 to
  -- 299 that the server gave to one of the first n calls, and that was its last call.
  pub request-ok :
      {r : Response}
      → settings.retry.max_attempts ≡ suc n
      → (request settings net method path params headers json t).0 ≡ ok r
      → (200 ≤ r.status_code)
        × (r.status_code < 300)
        × ((i : ℕ) × (i ≤ n)
            × (call settings net method path params headers json (t.calls + i) ≡ answered r)
            × ((request settings net method path params headers json t).1.calls ≡ t.calls + i + 1))
  unfolding request
  request-ok attempts h =
      let d =
        run-Decided settings.retry (call settings net method path params headers json) net.jitter n
          t attempts in
      let (got, low, high) = raise_for_status-ok net _ h in
      (
        low,
        high,
        (d.index, omega (arith, d.within), judged-answered _ (sym d.reply ∙ got), d.calls),
      )
