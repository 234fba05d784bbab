-- ===== src/Repositories.antt =====
-- repositories/: each statement that is sent to PostgreSQL, with the constraints of the schema.
-- Reads from a replica see every committed write.
pub mod Paging
pub mod Patch
pub mod Catalogue
pub mod Users
pub mod Organizations
pub mod Animals
pub mod AdoptRequests
pub mod Posts
pub mod Reviews
pub mod Search
