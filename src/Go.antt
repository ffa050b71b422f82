-- ===== src/Go.antt =====
-- What the program uses of Go's standard library, over byte strings.
pub mod Binary
pub mod Json
pub mod Strconv
pub mod Utf8
pub mod Space
pub mod Fields
pub mod Strings
pub mod Compare
