-- ===== src/Notifications.antt =====
-- app/notifications: the texts of notifications, their creation for every watcher, and sending.
pub mod Renderer
pub mod Engine
pub mod Sender
