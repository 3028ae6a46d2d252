-- ===== src/Go/Float.antt =====
-- float64 on the non-negative numbers that the gas margin meets: a significand of 53 bits, and
-- rounding to nearest, ties to even. A number is scaled by a power of two that keeps it whole.
use accounts_superposition_s.Prelude.{
  ℕ, zero, suc, ◌+◌, ◌*◌, ◌/◌, ◌%◌, ◌^◌, ltb, ◌==◌, ◌&&◌, ◌||◌, if◌then◌else◌,
}

-- The weight of the lowest bit kept: doubled until 53 bits hold the number. The fuel is for
-- numbers below 2 ^ 181.
unfoldable pub unit_fuel : ℕ → ℕ → ℕ → ℕ
unit_fuel zero n u = u
unit_fuel (suc f) n u = let wider = unit_fuel f n (2 * u) in if ltb n (u * 2 ^ 53) then u else wider

unfoldable pub round_at : ℕ → ℕ → ℕ
round_at u n =
    let q = n / u in
    let r = n % u in if ltb u (2 * r) || 2 * r == u && q % 2 == 1 then (q + 1) * u else q * u

unfoldable pub round53 : ℕ → ℕ
unfolding unit_fuel round_at
round53 n = if ltb n (2 ^ 53) then n else round_at (unit_fuel 128 n 1) n

-- `uint64(float64(g) * 0.30)`; the constant is 5404319552844595 / 2 ^ 54
unfoldable pub times_030 : ℕ → ℕ
unfolding round53
times_030 g = round53 (round53 g * 5404319552844595) / 2 ^ 54 % 2 ^ 64

-- `gasLimit += uint64(float64(gasLimit) * 0.30)`, in uint64
unfoldable pub with_margin : ℕ → ℕ
unfolding times_030
with_margin g = (g + times_030 g) % 2 ^ 64
