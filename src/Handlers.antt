-- ===== src/Handlers.antt =====
-- cpp/src/handlers: the handlers of the HTTP routes.
pub mod Insert
pub mod Query
pub mod Stats
pub mod Info
pub mod Ingest
mod Filters
pub mod Reading
mod Windows
mod Tests
