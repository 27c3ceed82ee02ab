-- ===== src/Workers.antt =====
-- The jobs of the workers, app/workers/tasks.py.
pub mod PollAuction
pub mod SendNotification
