-- ===== src/Domain.antt =====
-- The pure logic of the program, app/domain.
pub mod AuctionState
pub mod Diff
pub mod Notifications
pub mod Polling
pub mod Time
pub mod Validation
