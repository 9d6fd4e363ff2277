-- ===== src/Config.antt =====
-- include/config.h and src/config.c: the configuration, from the YAML document to the checked record.
pub mod Yaml
pub mod Numbers
pub mod Fields
pub mod Types
pub mod Nested
pub mod Sections
pub mod Backend
pub mod Routes
pub mod Load
mod Examples
