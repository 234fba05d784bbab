-- ===== src/Std.antt =====
-- What the code takes of the C++ standard library, for texts as the lists of their bytes.
-- A `String` of the model stands for an std::string, one character for each byte.
pub mod Chars
pub mod Decimal
pub mod Search
