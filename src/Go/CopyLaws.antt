-- ===== src/Go/CopyLaws.antt =====
-- `copy` into an array of zeros.
use accounts_superposition_s.Prelude.{
  ℕ, zero, suc, ◌+◌, ◌-◌, ◌≤◌, ◌<◌, ◌≡◌, refl, ap, Bytes, [], ◌∷◌, ◌++◌, length, take, drop,
  replicate, length-replicate, All, IsByte, ltb_of_le, lt→ltb, arith,
}
use accounts_superposition_s.Outcome.{ok, panic}
use accounts_superposition_s.Go.Copy.{copy, copy_from}

pub length-copy : (dst src : Bytes) → length (copy dst src) ≡ length dst
unfolding copy
length-copy [] src = refl
length-copy (d ∷ dst) [] = refl
length-copy (d ∷ dst) (s ∷ src) = ap suc (length-copy dst src)

pub copy-IsByte : (dst src : Bytes) → All IsByte dst → All IsByte src → All IsByte (copy dst src)
unfolding copy
copy-IsByte [] src h k = tt
copy-IsByte (d ∷ dst) [] h k = h
copy-IsByte (d ∷ dst) (s ∷ src) (hd, h) (ks, k) = (ks, copy-IsByte dst src h k)

pub zeros-IsByte : (n : ℕ) → All IsByte (replicate n 0)
zeros-IsByte zero = tt
zeros-IsByte (suc n) = (omega arith, zeros-IsByte n)

-- A source of the array's length replaces it.
pub copy_full : (dst src : Bytes) → length dst ≡ length src → copy dst src ≡ src
unfolding copy
copy_full [] [] h = refl
copy_full [] (s ∷ src) h = absurd (omega arith)
copy_full (d ∷ dst) [] h = absurd (omega arith)
copy_full (d ∷ dst) (s ∷ src) h = ap (λ l. s ∷ l) (copy_full dst src (omega arith))

aligned :
    (k n : ℕ) (b : Bytes)
    → n ≡ k + length b
    → take k (replicate n 0) ++ copy (drop k (replicate n 0)) b ≡ replicate k 0 ++ b
aligned zero n b h = copy_full (replicate n 0) b (omega (arith, length-replicate {A = ℕ} n 0))
aligned (suc k) zero b h = absurd (omega arith)
aligned (suc k) (suc n) b h = ap (λ l. 0 ∷ l) (aligned k n b (omega arith))

-- A source that fits, copied to the end of an array of zeros, is padded on the left.
pub copy_from_right :
    (n : ℕ) (b : Bytes)
    → length b ≤ n
    → copy_from (n - length b) (replicate n 0) b ≡ ok (replicate (n - length b) 0 ++ b)
unfolding copy_from
copy_from_right n b h =
    rw (length-replicate, ltb_of_le n (n - length b) (omega arith))
      (ap ok (aligned (n - length b) n b (omega arith)))

-- An offset past the end is a panic.
pub copy_from_past : (i n : ℕ) (b : Bytes) → n < i → copy_from i (replicate n 0) b ≡ panic
unfolding copy_from
copy_from_past i n b h = rw (length-replicate, lt→ltb n i h)

-- Behind a source that does not fill the array, a zero more changes nothing.
pub copy_trailing :
    (n : ℕ) (b : Bytes) → length b < n → copy (replicate n 0) (b ++ 0 ∷ []) ≡ copy (replicate n 0) b
unfolding copy
copy_trailing zero b h = absurd (omega arith)
copy_trailing (suc n) [] h = copy_one n
  where
    copy_one : (n : ℕ) → 0 ∷ copy (replicate n 0) [] ≡ 0 ∷ replicate n 0
    copy_one zero = refl
    copy_one (suc n) = refl
copy_trailing (suc n) (x ∷ b) h = ap (λ l. x ∷ l) (copy_trailing n b (omega arith))
