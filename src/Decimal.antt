-- ===== src/Decimal.antt =====
-- Python's `decimal.Decimal` as the consensus engine uses it: an interface, since its arithmetic
-- rounds to the context's precision. `D` stands for the finite decimals that fit the precision.
-- The laws are those of correctly rounded arithmetic and of a numeric comparison; numerals that
-- differ in form (0.5 and 0.50) compare as equal and are not identified.
mod Defs
pub mod Laws
pub mod Fixed
pub use Defs.{Decimal, zero_dec, one_dec, max, min, sum_from}
