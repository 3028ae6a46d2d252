-- ===== src/Go/HexLaws.antt =====
-- Hex text that `EncodeToString` wrote is read back.
use accounts_superposition_s.Prelude.{
  ℕ, ◌*◌, ◌/◌, ◌%◌, ◌<◌, ◌≡◌, ◌≢◌, refl, Bytes, codes, [], ◌∷◌, ◌++◌, some, length, drop, All,
  IsByte, ltb, if◌then◌else◌, arith,
}
use accounts_superposition_s.Outcome.{ok, panic}
use accounts_superposition_s.Go.Hex.{
  hex_value, hex_digit, decode_pair, store, hex_decode, hex_decode_string, hex_encode,
}
use accounts_superposition_s.Go.Strings.{trim_prefix, has_prefix}

hex_value-hex_digit : (n : ℕ) → n < 16 → hex_value (hex_digit n) ≡ some n
unfolding hex_value hex_digit
hex_value-hex_digit n h = ground arith

decode_pair-hex_digit :
    (b : ℕ) → b < 256 → decode_pair (hex_digit (b / 16)) (hex_digit (b % 16)) ≡ ok b
unfolding decode_pair
decode_pair-hex_digit b h =
    ground (arith, hex_value-hex_digit (b / 16), hex_value-hex_digit (b % 16))

pub length-hex_encode : (bs : Bytes) → length (hex_encode bs) ≡ 2 * length bs
unfolding hex_encode
length-hex_encode [] = omega arith
length-hex_encode (b ∷ bs) = omega (arith, length-hex_encode bs)

hex_encode-cons :
    (b : ℕ) (bs : Bytes)
    → hex_encode (b ∷ bs) ≡ hex_digit (b / 16) ∷ hex_digit (b % 16) ∷ hex_encode bs
unfolding hex_encode
hex_encode-cons b bs = refl

module _ (p q b : ℕ) (src : Bytes) (pair : decode_pair p q ≡ ok b) where
  hex_decode_full : hex_decode [] (p ∷ q ∷ src) ≡ panic
  unfolding hex_decode
  hex_decode_full = ground arith

  hex_decode_step :
      (d : ℕ) (dst : Bytes) → hex_decode (d ∷ dst) (p ∷ q ∷ src) ≡ store [] b (hex_decode dst src)
  unfolding hex_decode
  hex_decode_step d dst = ground arith

  hex_decode_string_step :
      (bs : Bytes) → hex_decode_string src ≡ ok bs → hex_decode_string (p ∷ q ∷ src) ≡ ok (b ∷ bs)
  unfolding hex_decode_string
  hex_decode_string_step bs h = ground arith

hex_decode-nil : (dst : Bytes) → hex_decode dst [] ≡ ok (dst, 0)
unfolding hex_decode
hex_decode-nil dst = refl

-- What `Decode` gives for such a text: the bytes at the front of the buffer, or a panic if they
-- are too many.
pub hex_decode-hex_encode :
    (dst bs : Bytes)
    → All IsByte bs
    → hex_decode dst (hex_encode bs)
      ≡ (if ltb (length dst) (length bs) then panic else ok (bs ++ drop (length bs) dst, length bs))
hex_decode-hex_encode dst [] h = unfold hex_encode in ground (arith, hex_decode-nil dst)
hex_decode-hex_encode [] (b ∷ bs) (hb, hs) =
    rw (hex_encode-cons b bs)
      (ground (arith, hex_decode_full _ _ b (hex_encode bs) (decode_pair-hex_digit b hb)))
hex_decode-hex_encode (d ∷ dst) (b ∷ bs) (hb, hs) = rw (hex_encode-cons b bs) (
    rw (hex_decode_step _ _ b (hex_encode bs) (decode_pair-hex_digit b hb) d dst)
      (rw (hex_decode-hex_encode dst bs hs) (ground arith)))

pub hex_decode_string-hex_encode :
    (bs : Bytes) → All IsByte bs → hex_decode_string (hex_encode bs) ≡ ok bs
hex_decode_string-hex_encode [] h = unfold hex_decode_string hex_encode in refl
hex_decode_string-hex_encode (b ∷ bs) (hb, hs) = rw (hex_encode-cons b bs) (
    hex_decode_string_step _ _ b (hex_encode bs) (decode_pair-hex_digit b hb) bs
      (hex_decode_string-hex_encode bs hs))

-- No hex digit is an `x`, so only a written `0x` is trimmed.
hex_digit_ne_x : (n : ℕ) → n < 16 → hex_digit n ≢ b'x'
unfolding hex_digit
hex_digit_ne_x n h = ground arith

pub trim_prefix-hex_encode :
    (bs : Bytes) → All IsByte bs → trim_prefix (hex_encode bs) (codes "0x") ≡ hex_encode bs
unfolding trim_prefix has_prefix hex_encode
trim_prefix-hex_encode [] h = refl
trim_prefix-hex_encode (b ∷ bs) (hb, hs) = ground (arith, hex_digit_ne_x (b % 16) (omega arith))

pub trim_prefix-append : (s : Bytes) → trim_prefix (codes "0x" ++ s) (codes "0x") ≡ s
unfolding trim_prefix has_prefix
trim_prefix-append s = refl
