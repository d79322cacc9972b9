-- ===== src/Bootstrap/Sinks.antt =====
-- infrastructure/outbox/sinks.py: the two sinks, with the log records and requests that they make.
use rules_enrichment_daemon.Prelude.{ℕ, String, ◌&&◌, List, [], ◌∷◌, ◌++◌, leb, ltb, if◌then◌else◌}
use rules_enrichment_daemon.Domain.Errors.{Error, Result, ok, err}
use rules_enrichment_daemon.Domain.Json.{str, obj, Fields, end, field}

pub data Sink : Type 0 where
  log_sink : Sink
  webhook : String → Sink

pub data Sent : Type 0 where
  logged : Fields → Sent
  posted : String → Fields → Sent

-- the `extra` of the log record
abbrev pub log_extra : String → Fields → Fields
log_extra event_type payload = field "event.action" (str "outbox_publish") (
    field "event.category" (str "message") (
      field "event.outcome" (str "success")
        (field "event.type" (str event_type) (field "payload" (obj payload) end))))

-- the JSON of the request
abbrev pub webhook_json : String → Fields → Fields
webhook_json event_type payload =
    field "event_type" (str event_type) (field "payload" (obj payload) end)

-- `raise_for_status` of the answer, all but 2xx, or the error of the request
abbrev pub accepted : (ℕ → Error) → Result ℕ → Result (Unit {0})
accepted status_error (ok code) =
    if leb 200 code && ltb code 300 then ok tt else err (status_error code)
accepted status_error (err e) = err e

-- `publish`; `post` answers a request with a status code or raises
unfoldable pub publish :
    Sink
    → (String → Fields → Result ℕ)
    → (ℕ → Error)
    → String
    → Fields
    → List Sent
    → Result (Unit {0}) × List Sent
publish log_sink post status_error event_type payload sent =
    (ok tt, sent ++ logged (log_extra event_type payload) ∷ [])
publish (webhook url) post status_error event_type payload sent =
    let body = webhook_json event_type payload in
    (accepted status_error (post url body), sent ++ posted url body ∷ [])
