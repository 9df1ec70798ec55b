-- ===== src/Text.antt =====
-- What the operator uses of Go's packages `strings`, `strconv` and `fmt`, over the native texts.
pub mod Strings
pub mod Facts
pub mod Decimal
pub mod Quote
