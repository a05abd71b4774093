-- ===== src/Catalog.antt =====
-- internal/catalog: the tables (ddl.go) and what each statement of sql.go does to them.
pub mod Tables
pub mod Partitions
pub mod Files
pub mod Feed
pub mod Pending
pub mod Views
