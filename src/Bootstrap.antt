-- ===== src/Bootstrap.antt =====
-- bootstrap.py: what the settings make of the client, the sink, the facade and the workers. Opening
-- the database is left out.
pub mod Config
pub mod Sinks
pub mod Bounds
pub mod Logged
pub mod Connected
use Prim.Native.Char.{code}
use rules_enrichment_daemon.Prelude.{
  ℕ, String, Bool, true, false, not, ◌&&◌, ◌==◌, str_eq, List, [], if◌then◌else◌,
}
use rules_enrichment_daemon.Bootstrap.Config.{Settings, SessionOptions, build_session_factory}
use rules_enrichment_daemon.Bootstrap.Sinks.{Sink, log_sink, webhook, publish}
use rules_enrichment_daemon.Domain.Errors.{Error, Result}
use rules_enrichment_daemon.Domain.Json.{Fields}
use rules_enrichment_daemon.Application.Environment.{Env}
use rules_enrichment_daemon.Http.Retry.{RetryPolicy, Trail}
use rules_enrichment_daemon.Http.Client.{ClientSettings, Network, submit_enrichment}
use rules_enrichment_daemon.Application.ProcessOrder.{ProcessSettings}
use rules_enrichment_daemon.Application.Facade.{FacadeSettings}

-- a character in front of a text that ends in no slash: a slash at the end is dropped
abbrev pub keep_char : ℕ → String → String → String
keep_char c kept String.[] = if c == b'/' then "" else kept
keep_char c kept (String.◌∷◌ d rest) = kept

-- `base_url.rstrip("/")`
unfoldable pub rstrip_slash : String → String
rstrip_slash String.[] = ""
rstrip_slash (String.◌∷◌ c s) =
    let rest = rstrip_slash s in keep_char (code c) (String.◌∷◌ c rest) rest

-- `RetryPolicy(max_attempts=n)`, in milliseconds
abbrev pub retry_policy : ℕ → RetryPolicy
retry_policy n = record { max_attempts = n; base_delay = 250; max_delay = 2000 }

-- `external_wms`
unfoldable pub external_wms : Settings → ClientSettings
unfolding rstrip_slash
external_wms s = record {
  base_url = rstrip_slash s.external_api_base_url;
  api_key = s.external_api_api_key;
  retry = retry_policy 3;
}

abbrev pub is_empty : String → Bool
is_empty String.[] = true
is_empty (String.◌∷◌ c s) = false

-- `outbox_sink`
unfoldable pub outbox_sink : Settings → Sink
outbox_sink s =
    if str_eq s.outbox_sink_mode "webhook" && not (is_empty s.outbox_webhook_url)
    then webhook s.outbox_webhook_url
    else log_sink

-- the publisher's sink; `post` answers the n-th request of the webhook
unfoldable pub with_sink : Settings → (ℕ → String → Fields → Result ℕ) → (ℕ → Error) → Env → Env
with_sink s post status_error env = record env {
  sink = λ n event_type payload.
      (publish (outbox_sink s) (post n) status_error event_type payload []).0;
}

abbrev pub process_settings : Settings → ProcessSettings
process_settings s = record {
  source_system = s.enrichment_source_system;
  enrichment_version = s.enrichment_version;
  max_processing_attempts = s.max_processing_attempts;
}

-- `enrichment_facade`
unfoldable pub enrichment_facade : Settings → FacadeSettings
enrichment_facade s = record {
  process = process_settings s;
  poll_batch_size = s.poll_batch_size;
  rule_cache_ttl_seconds = s.rule_cache_ttl_seconds;
}

-- the environment with the client and the sink of these settings; the n-th submission goes over the
-- n-th network
unfoldable pub connected :
    Settings → (ℕ → Network) → (ℕ → String → Fields → Result ℕ) → (ℕ → Error) → Env → Env
unfolding external_wms with_sink
connected s nets post status_error env = record (with_sink s post status_error env) {
  submit = λ n order_id payload correlation_id.
      (submit_enrichment (external_wms s) (nets n) order_id payload correlation_id
        (record { calls = 0; sleeps = [] })).0;
}

pub record Container : Type 0 where
  pub settings : Settings
  pub session_factory : SessionOptions

-- `Bootstrap.__init__` after the logging is configured
unfoldable container_of : Settings → Container
container_of s = record { settings = s; session_factory = build_session_factory s }

-- what a `PollingWorker` is made of
pub record PollingWorker : Type 0 where
  pub facade : FacadeSettings
  pub poll_interval_seconds : ℕ

-- `polling_worker`
unfoldable polling_worker : Settings → PollingWorker
unfolding enrichment_facade
polling_worker s = record {
  facade = enrichment_facade s;
  poll_interval_seconds = s.poll_interval_seconds;
}

-- what an `OutboxPublisherWorker` is made of
pub record OutboxPublisherWorker : Type 0 where
  pub sink : Sink
  pub interval_seconds : ℕ

-- `outbox_worker`
unfoldable outbox_worker : Settings → OutboxPublisherWorker
unfolding outbox_sink
outbox_worker s = record {
  sink = outbox_sink s;
  interval_seconds = s.outbox_publish_interval_seconds;
}
