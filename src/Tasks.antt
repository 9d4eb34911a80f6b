-- ===== src/Tasks.antt =====
-- cpp/src/tasks: the background tasks of the server.
pub mod Flush
pub mod Vacuum
pub mod Diagnostics
mod Subsequences
mod StatsRows
mod Conservation
mod Budget
mod Summaries
mod Tests
