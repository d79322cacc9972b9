-- ===== src/Http.antt =====
-- infrastructure/http: the retries and the client's requests.
pub mod Retry
pub mod Client
