-- ===== src/Catalog.antt =====
-- The catalog: schemas, tables, and the binder of SQL statements.
pub mod Schema
pub mod CatalogManager
