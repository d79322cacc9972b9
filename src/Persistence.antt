-- ===== src/Persistence.antt =====
-- The database side: rows and mappers, sessions and the unit of work, and the repositories.
pub mod Models
pub mod Mappers
pub mod Session
pub mod UnitOfWork
pub mod Repositories
