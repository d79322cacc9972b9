-- ===== src/Application.antt =====
-- The application layer: use cases over the ports, and the environment that they run in.
pub mod Environment
pub mod Ports
pub mod Payload
pub mod Recording
pub mod ProcessOrder
pub mod PublishOutbox
pub mod RulesCache
pub mod Facade
