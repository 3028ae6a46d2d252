-- ===== src/Convertor/Decode.antt =====
-- The decoding of text fields: fixed-size hex, decimal amounts, timestamps, and the checked casts.
use accounts_superposition_s.Prelude.{
  ℕ, ◌-◌, ◌^◌, ◌%◌, Bytes, codes, [], ◌∷◌, length, ltb, ◌==◌, not, ℤ, pos, negsuc, nat_abs,
}
use accounts_superposition_s.Outcome.{
  note, bytes, ◌◂◌, Outcome, ok, err, wrap, refuse_if, or_err, ◌>>=◌, ◌>>◌,
}
use accounts_superposition_s.Go.{
  copy, copy_from, hex_decode, trim_prefix, set_string, big_bytes, itoa,
}
use accounts_superposition_s.Types.{zeros}

-- `strToBytes8` and `strToBytes32`, at 8 and 32. The array that comes beside an error is not
-- modelled, since every caller drops it.
unfoldable pub str_to_bytes : ℕ → Bytes → Outcome Bytes
str_to_bytes n s = do
  decoded ← wrap "decode str: " (hex_decode (zeros n) (trim_prefix s (codes "0x")))
  refuse_if (not (decoded.1 == n)) (note "decode str len: " ◂ bytes (itoa decoded.1))
  ok decoded.0

-- the empty text is the zero address
unfoldable pub str_to_addr : Bytes → Outcome Bytes
unfolding str_to_bytes
str_to_addr [] = ok (zeros 20)
str_to_addr (c ∷ s) = str_to_bytes 20 (c ∷ s)

-- A decimal amount as the 32 bytes of a big-endian word. The sign is dropped by `Bytes`.
unfoldable pub amount_bytes : Bytes → Outcome Bytes
amount_bytes amount = do
  a ← or_err (set_string amount) (note "amount: " ◂ bytes amount)
  let b = big_bytes (nat_abs a)
  refuse_if (ltb 32 (length b)) (note "too huge amount: " ◂ bytes amount)
  copy_from (32 - length b) (zeros 32) b

-- `copy(msTs[32-len(msTsB):], msTsB)`, where `msTs` has 16 bytes
unfoldable pub ms_ts_right : Bytes → Outcome Bytes
ms_ts_right ms_ts = do
  t ← or_err (set_string ms_ts) (note "ms ts: " ◂ bytes ms_ts)
  let b = big_bytes (nat_abs t)
  refuse_if (ltb 32 (length b)) (note "ms ts too large: " ◂ bytes (itoa (length b)))
  copy_from (32 - length b) (zeros 16) b

-- `copy(msTs[:], msTsI.Bytes())`
unfoldable pub ms_ts_left : Bytes → Outcome Bytes
ms_ts_left ms_ts = do
  t ← or_err (set_string ms_ts) (note "ms ts: " ◂ bytes ms_ts)
  ok (copy (zeros 16) (big_bytes (nat_abs t)))

-- `if v < 0 || v > math.MaxUint8`, then `uint8(v)`
unfoldable pub checked_v : ℤ → Outcome ℕ
checked_v (negsuc n) = err (note "v exceeds")
checked_v (pos n) = do refuse_if (ltb 255 n) (note "v exceeds"); ok (n % 2 ^ 8)

-- `if deadline < 0`, then `uint64(deadline)`
unfoldable pub checked_deadline : ℤ → Outcome ℕ
checked_deadline (negsuc n) = err (note "negative deadline")
checked_deadline (pos n) = ok (n % 2 ^ 64)
