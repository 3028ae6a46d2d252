-- ===== src/Convertor/DecodeLaws.antt =====
-- The fixed-size hex fields, at every length.
use accounts_superposition_s.Prelude.{
  ℕ, zero, suc, ◌≡◌, refl, Bytes, codes, [], ◌++◌, length, drop, All, IsByte, ltb, ◌==◌,
  if◌then◌else◌, append-nil, arith, length-replicate,
}
use accounts_superposition_s.Outcome.{note, bytes, ◌◂◌, Outcome, ok, err, panic}
use accounts_superposition_s.Go.{hex_encode, trim_prefix, itoa}
use accounts_superposition_s.Go.HexLaws.{
  hex_decode-hex_encode, trim_prefix-hex_encode, trim_prefix-append,
}
use accounts_superposition_s.Types.{zeros}
use accounts_superposition_s.Convertor.Decode.{str_to_bytes}

-- What becomes of a hex text of `bs` in a field of `n` bytes.
abbrev pub fitted : ℕ → Bytes → Outcome Bytes
fitted n bs =
    if ltb n (length bs)
    then panic
    else if length bs == n
    then ok bs
    else err (note "decode str len: " ◂ bytes (itoa (length bs)))

drop-zeros : (n : ℕ) → drop n (zeros n) ≡ []
drop-zeros zero = refl
drop-zeros (suc n) = drop-zeros n

str_to_bytes_of_trimmed :
    (n : ℕ) (s bs : Bytes)
    → trim_prefix s (codes "0x") ≡ hex_encode bs
    → All IsByte bs
    → str_to_bytes n s ≡ fitted n bs
unfolding str_to_bytes
str_to_bytes_of_trimmed n s bs t h =
    rw (t, hex_decode-hex_encode (zeros n) bs h, length-replicate)
      (ground (arith, drop-zeros n, append-nil bs))

-- A field of `n` bytes decodes the hex text of exactly `n` bytes to them, with `0x` in front or
-- without; a shorter text is an error, and a longer one is a panic.
pub str_to_bytes-hex_encode :
    (n : ℕ) (bs : Bytes)
    → All IsByte bs
    → (str_to_bytes n (hex_encode bs) ≡ fitted n bs)
      × (str_to_bytes n (codes "0x" ++ hex_encode bs) ≡ fitted n bs)
str_to_bytes-hex_encode n bs h = (
  str_to_bytes_of_trimmed n _ bs (trim_prefix-hex_encode bs h) h,
  str_to_bytes_of_trimmed n _ bs (trim_prefix-append (hex_encode bs)) h,
)
