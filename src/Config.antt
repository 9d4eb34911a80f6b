-- ===== src/Config.antt =====
-- cpp/src/config.hpp and config.cpp: the configuration, how its members are loaded from the
-- environment and from the YAML document, the size of the pool, and the validation.
pub mod Types
pub mod PoolSize
pub mod Load
pub mod FromFile
mod PoolBounds
mod Valid
mod Overrides
mod Tests
pub use Types.*
unfoldable pub use PoolSize.*
unfoldable pub use Load.*
unfoldable pub use FromFile.*
