-- ===== src/Convertor/AmountLaws.antt =====
-- Decimal amounts and timestamps.
use accounts_superposition_s.Prelude.{
  ℕ, ◌-◌, ◌*◌, ◌^◌, ◌≤◌, ◌<◌, ◌≡◌, ap, sym, Bytes, ◌++◌, some, length, All, All-append, IsByte,
  IsArray, length-append, length-replicate, ltb, ltb_of_le, ltb-false, Bool-cases, inl, inr, ℤ,
  nat_abs, arith,
}
use accounts_superposition_s.Outcome.{note, bytes, ◌◂◌, ok, err, panic}
use accounts_superposition_s.Go.{set_string, big_bytes, set_bytes}
use accounts_superposition_s.Go.BigIntLaws.{
  big_bytes-IsByte, length-big_bytes-le, set_bytes_padded, set_bytes-lt, big_bytes_shift,
}
use accounts_superposition_s.Go.CopyLaws.{
  copy_from_right, copy_from_past, copy_trailing, zeros-IsByte,
}
use accounts_superposition_s.Types.{zeros}
use accounts_superposition_s.Convertor.Decode.{amount_bytes, ms_ts_right, ms_ts_left}

padded-IsArray :
    (n : ℕ) (b : Bytes) → All IsByte b → length b ≤ n → IsArray n (zeros (n - length b) ++ b)
padded-IsArray n b h l = record {
  size =
      omega
        (arith, length-append (zeros (n - length b)) b, length-replicate {A = ℕ} (n - length b) 0);
  bytes = All-append IsByte (zeros (n - length b)) b (zeros-IsByte (n - length b)) h;
}

module _ (s : Bytes) (z : ℤ) (number : set_string s ≡ some z) where
  -- A decimal number whose absolute value is below 2 ^ 256 becomes a word of 32 bytes, and the word
  -- read as a big-endian number is that absolute value.
  pub amount_bytes_small :
      nat_abs z < 256 ^ 32
      → (a : Bytes) × (amount_bytes s ≡ ok a) × IsArray 32 a × (set_bytes a ≡ nat_abs z)
  unfolding amount_bytes
  amount_bytes_small h =
      let b = big_bytes (nat_abs z) in
      let fits = length-big_bytes-le 32 (nat_abs z) h in
      (
        zeros (32 - length b) ++ b,
        rw (number, ltb_of_le 32 (length b) fits) (copy_from_right 32 b fits),
        padded-IsArray 32 b (big_bytes-IsByte (nat_abs z)) fits,
        set_bytes_padded (32 - length b) (nat_abs z),
      )

  -- A decimal number whose absolute value is 2 ^ 256 or more is refused as too huge.
  pub amount_bytes_huge :
      256 ^ 32 ≤ nat_abs z → amount_bytes s ≡ err (note "too huge amount: " ◂ bytes s)
  unfolding amount_bytes
  amount_bytes_huge h =
      let b = big_bytes (nat_abs z) in
      elim (Bool-cases (ltb 32 (length b))) [
        | inl e ↦ rw (number, e)
        | inr e ↦
            let fits = ltb-false 32 (length b) e in
            let word = padded-IsArray 32 b (big_bytes-IsByte (nat_abs z)) fits in
            absurd
              (omega (arith, set_bytes-lt 32 _ word, set_bytes_padded (32 - length b) (nat_abs z)))
      ]

  -- The right-aligned timestamp panics for every decimal number whose absolute value is below 2 ^ 120.
  pub ms_ts_right_panics : nat_abs z < 256 ^ 15 → ms_ts_right s ≡ panic
  unfolding ms_ts_right
  ms_ts_right_panics h =
      let b = big_bytes (nat_abs z) in
      let short = length-big_bytes-le 15 (nat_abs z) h in
      rw (number, ltb_of_le 32 (length b) (omega arith))
        (copy_from_past (32 - length b) 16 b (omega arith))

-- Two timestamps whose absolute values are n and 256 * n, for a positive n below 2 ^ 120, give the
-- same left-aligned nonce.
pub ms_ts_left_collides :
    (s t : Bytes) (n : ℕ) (y z : ℤ)
    → set_string s ≡ some y
    → set_string t ≡ some z
    → nat_abs y ≡ n
    → nat_abs z ≡ 256 * n
    → 0 < n
    → n < 256 ^ 15
    → ms_ts_left s ≡ ms_ts_left t
unfolding ms_ts_left
ms_ts_left_collides s t n y z p q ey ez pos small =
    rw (p, q, ey, ez, big_bytes_shift n pos)
      (ap ok (sym (copy_trailing 16 (big_bytes n) (omega (arith, length-big_bytes-le 15 n small)))))
