-- ===== src/Platform.antt =====
-- pkg: the packages that do not know the domain.
pub mod Backoff
pub mod Transaction
pub mod Processor
pub mod DeadLetters
pub mod Postgres
pub mod Redis
