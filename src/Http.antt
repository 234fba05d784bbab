-- ===== src/Http.antt =====
-- src/handlers and the parts of src/utils that they answer with.
pub mod ErrorResponse
pub mod Validator
pub mod Request
pub mod Forms
pub mod Bodies
pub mod Animals
pub mod Search
pub mod Organizations
pub mod Posts
pub mod Reviews
pub mod Auth
pub mod Users
pub mod Adoption
