-- ===== src/Go.antt =====
-- What the program uses of Go's standard library, as functions on byte lists.
pub mod Hex
pub mod ParseUint
pub mod Strings
pub mod Maps
pub mod Float
pub mod Search
pub mod Ints
pub mod Contains
