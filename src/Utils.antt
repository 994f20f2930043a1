-- ===== src/Utils.antt =====
-- utils/: the conversions and helpers that the rest of the program calls.
pub mod TryteByteConv
pub mod Djb2
pub mod FillNines
