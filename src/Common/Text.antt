-- ===== src/Common/Text.antt =====
-- Text as the list of its Unicode scalar values, and the functions of Rust's `str` that the sensor
-- uses. A slice at a position that `find` returned is the same slice in characters as in bytes.
mod Equality
mod Slices
mod Numbers
mod Laws
mod Printing
unfoldable pub use Equality.*
unfoldable pub use Slices.*
unfoldable pub use Numbers.*
pub use Laws.*
pub use Printing.*
