-- ===== src/Config.antt =====
-- system_config's Configuration: the tree of a configuration file, its text and its paths.
pub mod Words
pub mod Node
pub mod Load
pub mod Paths
pub mod RoundTrip
pub mod Errors
pub mod Write
mod Tests
