-- ===== src/Js.antt =====
-- What the map scripts use of the language itself: values of JSON fields, string conversion,
-- `trim`, `replace` with a global pattern, `encodeURIComponent`, the decimal form of a number, and `sort`.
pub mod Values
pub mod Sort
pub mod Strings
pub mod Uri
pub mod Decimal
pub mod Floats
