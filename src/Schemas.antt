-- ===== src/Schemas.antt =====
-- The data that the Yahoo page carries, app/schemas.
pub mod Json
pub mod Yahoo
