-- ===== src/Http/Client.antt =====
-- infrastructure/http/manhattan_simulator_client.py: how a request is made and what its failures
-- become. Reading has the orders of the answers.
pub mod Answers
pub mod Parts
pub mod Reading
use Prim.Native.String.{◌++◌}
use rules_enrichment_daemon.Prelude.{
  ℕ, ◌+◌, String, Bool, true, false, not, leb, ltb, ◌&&◌, ◌==◌, Option, if◌then◌else◌, ◌≡◌, refl,
  inl, inr, ◌⊎◌, Bool-cases, arith,
}
use rules_enrichment_daemon.Domain.Errors.{
  Error, Result, ok, err, external_api_timeout, external_api_unavailable,
}
use rules_enrichment_daemon.Domain.Errors as Errors
use rules_enrichment_daemon.Domain.Json.{Json, str, Fields, end, field}
use rules_enrichment_daemon.Domain.Json.Dict.{set}
use rules_enrichment_daemon.Http.Retry.{
  Response, HttpError, timeout, transport, status, request_error, other_error, Reply, answered,
  raised, RetryPolicy, Trail, judged, run,
}

pub record Request : Type 0 where
  pub method : String
  pub url : String
  pub params : Option Fields
  pub headers : Fields
  pub json : Option Fields

-- `base_url` has no slash at its end
pub record ClientSettings : Type 0 where
  pub base_url : String
  pub api_key : String
  pub retry : RetryPolicy

-- the server and the network: the reply to the n-th call, and the jitter before the next
pub record Network : Type 0 where
  pub reply : ℕ → Request → Reply
  pub jitter : ℕ → ℕ
  -- the text of the error that `raise_for_status` raises
  pub status_text : Response → String

-- `if self._api_key: headers["X-API-Key"] = self._api_key`
unfoldable pub with_api_key : String → Fields → Fields
with_api_key String.[] headers = headers
with_api_key key headers = set "X-API-Key" (str key) headers

-- `response.raise_for_status()`: all but 2xx is an error
unfoldable pub raise_for_status : Network → Reply → Reply
raise_for_status net (answered r) =
    if leb 200 r.status_code && ltb r.status_code 300
    then answered r
    else raised (status (net.status_text r))
raise_for_status net (raised e) = raised e

-- the two `except` clauses; a timeout is caught before the errors that it is one of
unfoldable pub translated : Reply → Result Response
translated (answered r) = ok r
translated (raised (timeout m)) = err (external_api_timeout m)
translated (raised (transport m)) = err (external_api_unavailable m)
translated (raised (status m)) = err (external_api_unavailable m)
translated (raised (request_error m)) = err (external_api_unavailable m)
translated (raised (other_error e)) = err e

-- the call that `_request` makes
abbrev pub call :
    ClientSettings → Network → String → String → Option Fields → Fields → Option Fields → ℕ → Reply
call settings net method path params headers json n = net.reply n (record {
  method = method;
  url = settings.base_url ++ path;
  params = params;
  headers = with_api_key settings.api_key headers;
  json = json;
})

-- `_request`
unfoldable pub request :
    ClientSettings
    → Network
    → String
    → String
    → Option Fields
    → Fields
    → Option Fields
    → Trail
    → Result Response × Trail
request settings net method path params headers json t =
    let r = run settings.retry (call settings net method path params headers json) net.jitter t in
    (translated (raise_for_status net r.0), r.1)

abbrev pub is_ok_status : Result Response → Bool
is_ok_status (ok r) = r.status_code == 200
is_ok_status (err e) = false

-- `health_check`
unfoldable pub health_check : ClientSettings → Network → Trail → Bool × Trail
health_check settings net t =
    let r = request settings net "GET" "/health" Option.none end Option.none t in
    (is_ok_status r.0, r.1)

-- `submit_enrichment`
unfoldable pub submit_enrichment :
    ClientSettings → Network → String → Fields → String → Trail → Result (Unit {0}) × Trail
submit_enrichment settings net order_id payload correlation_id t =
    let r =
      request settings net "POST" ("/api/v1/orders/" ++ order_id ++ "/enrichment") Option.none
        (field "X-Correlation-ID" (str correlation_id) end) (Option.some payload) t in
    (Errors.◌>>=◌ r.0 (λ _. ok tt), r.1)
