-- ===== src/Accounts.antt =====
-- The accounts: what user_service.cpp and organization_service.cpp promise together.
pub mod Registration
pub mod Deletion
pub mod Founding
