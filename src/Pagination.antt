-- ===== src/Pagination.antt =====
-- The pages of a listing.
pub mod Cover
pub mod Overflow
