-- ===== src/Db.antt =====
-- The PostgreSQL database of postgresql/schemas: its tables, and the constraints and referential
-- actions of the schema.
pub mod Table
pub mod Tables
pub mod Rows
pub mod Cascade
pub mod References
pub mod Consistent
