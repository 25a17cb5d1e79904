-- ===== src/Web.antt =====
-- src/main.py: the routes of the application over the access, search and study parts.
pub mod Usage
pub mod Guards
pub mod Routes
pub mod Calls
pub mod Cleared
pub mod Readers
pub mod Logged
pub mod Reported
mod Tests
