-- ===== src/Services.antt =====
-- The application services, app/services.
pub mod StateMapper
pub mod Monitoring
pub mod Auctions
