-- ===== src/Go.antt =====
-- What the program uses of Go's standard library, on byte strings.
mod Copy
mod Hex
mod BigInt
mod Strings
mod Float
pub mod HexLaws
pub mod BigIntLaws
pub mod CopyLaws
pub mod SplitLaws
unfoldable pub use Copy.{copy, copy_from}
unfoldable pub use Hex.{
  hex_value, hex_digit, decode_pair, invalid_byte, odd_length, hex_decode, hex_decode_string,
  hex_encode,
}
unfoldable pub use BigInt.{set_string, big_bytes, set_bytes, itoa, int_text}
unfoldable pub use Strings.{trim_prefix, has_prefix, contains_str, to_lower, lower, split_on}
unfoldable pub use Float.{unit_fuel, round_at, round53, times_030, with_margin}
