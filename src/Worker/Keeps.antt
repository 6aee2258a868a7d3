-- ===== src/Worker/Keeps.antt =====
-- What every statement of the webhook worker keeps, every event keeps.
pub mod Steps
pub mod Progress
pub mod Events
pub use Events.{process_at}
