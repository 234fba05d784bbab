-- ===== src/Adoption.antt =====
-- The adoption of an animal: what adopt_request_service.cpp does on every branch, as one atomic
-- step of the database.
pub mod Step
pub mod Accept
pub mod Effects
pub mod Request
pub mod Offer
