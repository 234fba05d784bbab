-- ===== src/Services.antt =====
-- services/: the operations behind the handlers.
pub mod Catalogue
pub mod Users
pub mod Organizations
pub mod Animals
pub mod AdoptRequests
pub mod Posts
pub mod Reviews
