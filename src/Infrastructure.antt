-- ===== src/Infrastructure.antt =====
-- What the processes share through Redis, app/infrastructure.
pub mod Locks
pub mod RateLimit
