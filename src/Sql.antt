-- ===== src/Sql.antt =====
-- utils/sql_builder: the clauses of a query with their parameters, the escaping of LIKE, and how a
-- clause is read.
pub mod Escape
pub mod Builder
pub mod Reading
