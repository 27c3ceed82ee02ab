-- ===== src/Repositories.antt =====
-- The repositories, app/repositories: queries and updates of one table each.
pub mod Columns
pub mod Users
pub mod Auctions
pub mod UserAuctions
pub mod Snapshots
pub mod Notifications
