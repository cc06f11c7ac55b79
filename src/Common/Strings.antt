-- ===== src/Common/Strings.antt =====
-- Go strings as lists of code points, and the functions of packages strings and strconv that the
-- source calls. Letters outside ASCII have no case here; `is_space` is all of unicode.IsSpace.
mod Defs
mod Trim
mod Split
mod Decimal
unfoldable pub use Defs.*
unfoldable pub use Trim.*
unfoldable pub use Split.*
unfoldable pub use Decimal.*
