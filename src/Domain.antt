-- ===== src/Domain.antt =====
-- The domain layer: values and times, orders, rules, specifications, decisions.
pub mod Errors
pub mod Datetime
pub mod Json
pub mod Order
pub mod Value
pub mod Specification
pub mod Rule
pub mod Evaluation
pub mod Processing
