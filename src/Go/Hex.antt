-- ===== src/Go/Hex.antt =====
-- encoding/hex
use accounts_superposition_s.Prelude.{
  ℕ, suc, ◌+◌, ◌-◌, ◌*◌, ◌/◌, ◌%◌, Bytes, [], ◌∷◌, Option, none, some, leb, ltb, ◌&&◌, ◌||◌,
  if◌then◌else◌, ◌==◌, not,
}
use accounts_superposition_s.Outcome.{Error, note, bytes, ◌◂◌, Outcome, ok, err, panic}

-- `reverseHexTable`: 0 to 15, or none for a byte that is no digit
unfoldable pub hex_value : ℕ → Option ℕ
hex_value c =
    if leb b'0' c && leb c b'9'
    then some (c - b'0')
    else if leb b'a' c && leb c b'f'
    then some (c - b'a' + 10)
    else if leb b'A' c && leb c b'F'
    then some (c - b'A' + 10)
    else none

unfoldable pub upper_digit : ℕ → ℕ
upper_digit n = if ltb n 10 then b'0' + n else b'A' + (n - 10)

-- the UTF-8 form of a code point below 256
unfoldable pub rune : ℕ → Bytes
rune c = if ltb c 0x80 then c ∷ [] else (0xc0 + c / 64) ∷ (0x80 + c % 64) ∷ []

-- the verb `%#U`: behind the code point, the character where it is printable
unfoldable pub quoted : ℕ → Error
unfolding rune
quoted c =
    if leb 0x20 c && leb c 0x7e || leb 0xa1 c && not (c == 0xad)
    then note " '" ◂ bytes (rune c) ◂ note "'"
    else note ""

-- `InvalidByteError` and `ErrLength`
unfoldable pub invalid_byte : ℕ → Error
unfolding quoted upper_digit
invalid_byte c =
    note "encoding/hex: invalid byte: U+00"
    ◂ bytes (upper_digit (c / 16) ∷ upper_digit (c % 16) ∷ [])
    ◂ quoted c

abbrev pub odd_length : Error
odd_length = note "encoding/hex: odd length hex string"

-- One round of `Decode`: two digits become a byte, stored at the front of what is left of `dst`
-- (an index out of range panics when nothing is left).
unfoldable pub decode_pair : ℕ → ℕ → Outcome ℕ
unfolding hex_value
decode_pair p q = elim (hex_value p) [
  | none ↦ err (invalid_byte p)
  | some a ↦ elim (hex_value q) [ none ↦ err (invalid_byte q) | some b ↦ ok (a * 16 + b) ]
]

abbrev pub store : Bytes → ℕ → Outcome (Bytes × ℕ) → Outcome (Bytes × ℕ)
store d b (ok (rest, n)) = ok (b ∷ rest, suc n)
store d b (err e) = err e
store d b panic = panic
store d b (Outcome.fatal e) = Outcome.fatal e

-- The bytes written into `dst`, and their number.
unfoldable pub hex_decode : Bytes → Bytes → Outcome (Bytes × ℕ)
unfolding decode_pair
hex_decode dst [] = ok (dst, 0)
hex_decode dst (p ∷ []) = elim (hex_value p) [
  | none ↦ err (invalid_byte p)
  | some a ↦ err odd_length
]
hex_decode [] (p ∷ q ∷ src) = elim (decode_pair p q) [ ok b ↦ panic | err e ↦ err e | _ ↦ panic ]
hex_decode (d ∷ dst) (p ∷ q ∷ src) =
    let rest = hex_decode dst src in
    elim (decode_pair p q) [ ok b ↦ store [] b rest | err e ↦ err e | _ ↦ panic ]

-- `DecodeString` decodes in place, into a buffer that is long enough.
unfoldable pub hex_decode_string : Bytes → Outcome Bytes
unfolding decode_pair
hex_decode_string [] = ok []
hex_decode_string (p ∷ []) = elim (hex_value p) [
  | none ↦ err (invalid_byte p)
  | some a ↦ err odd_length
]
hex_decode_string (p ∷ q ∷ src) =
    let rest = hex_decode_string src in
    elim (decode_pair p q) [
      | ok b ↦ elim rest [ ok bs ↦ ok (b ∷ bs) | err e ↦ err e | _ ↦ panic ]
      | err e ↦ err e
      | _ ↦ panic
    ]

unfoldable pub hex_digit : ℕ → ℕ
hex_digit n = if ltb n 10 then b'0' + n else b'a' + (n - 10)

-- `EncodeToString`, and the verb `%x` of a byte string
unfoldable pub hex_encode : Bytes → Bytes
unfolding hex_digit
hex_encode [] = []
hex_encode (b ∷ bs) = hex_digit (b / 16) ∷ hex_digit (b % 16) ∷ hex_encode bs
