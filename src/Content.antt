-- ===== src/Content.antt =====
-- The animals, posts and reviews: what their services promise to the users who edit them.
pub mod Animals
pub mod Posts
pub mod Reviews
