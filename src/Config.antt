-- ===== src/Config.antt =====
-- config.py of the three adapters.  The file system, the YAML parser and the environment are
-- parameters.
pub mod IdList
pub mod Settings
pub mod Url
pub mod Site
pub mod Fleet
mod Tests
