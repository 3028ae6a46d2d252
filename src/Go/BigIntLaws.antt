-- ===== src/Go/BigIntLaws.antt =====
-- `Bytes` and `SetBytes` of math/big, and how many bytes a number has.
use accounts_superposition_s.Prelude.{
  ℕ, zero, suc, ◌+◌, ◌*◌, ◌/◌, ◌%◌, ◌^◌, ◌≤◌, ◌<◌, ◌≡◌, refl, ◌∙◌, Bytes, [], ◌∷◌, ◌++◌, length,
  replicate, length-append, All, All-append, IsByte, if◌then◌else◌, Bool-cases, inl, inr, arith,
  ◌==◌, IsArray,
}
use native.Mathlib.Nat.{pow-suc}
use accounts_superposition_s.Go.BigInt.{big_bytes_fuel, big_bytes, set_bytes_from, set_bytes}

set_bytes_from-append :
    (n : ℕ) (xs : Bytes) (b : ℕ) → set_bytes_from n (xs ++ b ∷ []) ≡ set_bytes_from n xs * 256 + b
set_bytes_from-append n [] b = refl
set_bytes_from-append n (x ∷ xs) b = set_bytes_from-append (n * 256 + x) xs b

fuel-set_bytes : (f n : ℕ) → n ≤ f → set_bytes_from 0 (big_bytes_fuel f n) ≡ n
unfolding big_bytes_fuel
fuel-set_bytes zero n h = omega arith
fuel-set_bytes (suc f) n h = ground (
  arith,
  fuel-set_bytes f (n / 256),
  set_bytes_from-append 0 (big_bytes_fuel f (n / 256)) (n % 256),
)

-- The bytes spell the number, with the highest first.
pub set_bytes-big_bytes : (n : ℕ) → set_bytes (big_bytes n) ≡ n
unfolding set_bytes big_bytes
set_bytes-big_bytes n = fuel-set_bytes n n (omega arith)

fuel-IsByte : (f n : ℕ) → All IsByte (big_bytes_fuel f n)
unfolding big_bytes_fuel
fuel-IsByte zero n = tt
fuel-IsByte (suc f) n = elim (Bool-cases (n == 0)) [
  | inl e ↦ rw e tt
  | inr e ↦
      rw e (All-append _ (big_bytes_fuel f (n / 256)) _ (fuel-IsByte f (n / 256)) (omega arith))
]

pub big_bytes-IsByte : (n : ℕ) → All IsByte (big_bytes n)
unfolding big_bytes
big_bytes-IsByte n = fuel-IsByte n n

-- A number below 256 ^ k has at most k bytes, and one that is not has more.
fuel-length-le : (k f n : ℕ) → n < 256 ^ k → length (big_bytes_fuel f n) ≤ k
unfolding big_bytes_fuel
fuel-length-le k zero n h = omega arith
fuel-length-le zero (suc f) n h = ground arith
fuel-length-le (suc k) (suc f) n h =
    let p : n < 256 ^ k * 256 = rw (← pow-suc 256 k) h in
    ground (
      arith,
      fuel-length-le k f (n / 256),
      length-append (big_bytes_fuel f (n / 256)) (n % 256 ∷ []),
    )

pub length-big_bytes-le : (k n : ℕ) → n < 256 ^ k → length (big_bytes n) ≤ k
unfolding big_bytes
length-big_bytes-le k n = fuel-length-le k n n

fuel_irrelevant : (f g n : ℕ) → n ≤ f → n ≤ g → big_bytes_fuel f n ≡ big_bytes_fuel g n
unfolding big_bytes_fuel
fuel_irrelevant zero zero n p q = refl
fuel_irrelevant zero (suc g) n p q = ground arith
fuel_irrelevant (suc f) zero n p q = ground arith
fuel_irrelevant (suc f) (suc g) n p q = ground (arith, fuel_irrelevant f g (n / 256))

-- A number times 256 has one zero byte more.
pub big_bytes_shift : (n : ℕ) → 0 < n → big_bytes (256 * n) ≡ big_bytes n ++ 0 ∷ []
unfolding big_bytes
big_bytes_shift n h =
    rw (fuel_irrelevant (256 * n) (suc (256 * n)) (256 * n) (omega arith) (omega arith)) (
      unfold big_bytes_fuel in
      rw (fuel_irrelevant n (256 * n) n (omega arith) (omega arith)) (shifted (256 * n) n h))
  where
    shifted :
        (f m : ℕ)
        → 0 < m
        → (let rest = big_bytes_fuel f (256 * m / 256) in
            if 256 * m == 0 then [] else rest ++ 256 * m % 256 ∷ [])
          ≡ big_bytes_fuel f m ++ 0 ∷ []
    shifted f m p = ground arith

set_bytes_from-lt :
    (n : ℕ) (xs : Bytes) → All IsByte xs → set_bytes_from n xs < (n + 1) * 256 ^ length xs
set_bytes_from-lt n [] h = omega arith
set_bytes_from-lt n (x ∷ xs) (hx, hs) =
    rw (pow-suc 256 (length xs)) (grind (arith, set_bytes_from-lt (n * 256 + x) xs hs))

-- `n` bytes spell a number below 256 ^ n.
pub set_bytes-lt : (n : ℕ) (xs : Bytes) → IsArray n xs → set_bytes xs < 256 ^ n
unfolding set_bytes
set_bytes-lt n xs a = let p = set_bytes_from-lt 0 xs a.bytes in rw (← a.size) (omega (arith, p))

set_bytes-zeros :
    (k : ℕ) (xs : Bytes) → set_bytes_from 0 (replicate k 0 ++ xs) ≡ set_bytes_from 0 xs
set_bytes-zeros zero xs = refl
set_bytes-zeros (suc k) xs = set_bytes-zeros k xs

-- Leading zeros do not change the number.
pub set_bytes_padded : (k n : ℕ) → set_bytes (replicate k 0 ++ big_bytes n) ≡ n
unfolding set_bytes
set_bytes_padded k n = set_bytes-zeros k (big_bytes n) ∙ set_bytes-big_bytes n
