-- ===== src/Text.antt =====
-- What the program uses of Go's `strings`, `strconv` and `sort`: the standard library over lists of
-- code points, with the laws that the components' proofs go by.
pub mod Case
pub mod Cut
pub mod Decimal
pub mod Sort
pub mod Space
pub mod Split
