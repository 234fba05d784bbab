-- ===== src/Models.antt =====
-- The models and the transfer objects of models/ and dto/.
pub mod Enums
pub mod EnumText
pub mod EnumLaws
pub mod Records
pub mod Dto
pub mod Convert
pub mod FilterOptions
