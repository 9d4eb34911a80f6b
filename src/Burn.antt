-- ===== src/Burn.antt =====
-- burn/src: the load generator, which reads the server's schema and posts logs that fit it.
pub mod Endpoint
pub mod Schema
pub mod Record
pub mod Sender
pub mod Main
mod Printed
mod Agreed
mod Typed
mod Counting
mod Awaiting
mod Stopping
mod Tests
