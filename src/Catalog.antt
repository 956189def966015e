-- ===== src/Catalog.antt =====
-- internal/catalog: JSON values against the schema subset, and the command catalog.
pub mod Number
pub mod Value
pub mod Schema
pub mod Commands
