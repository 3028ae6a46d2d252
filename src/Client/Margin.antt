-- ===== src/Client/Margin.antt =====
-- The margin on the gas limit.
use accounts_superposition_s.Prelude.{
  ℕ, zero, suc, ◌+◌, ◌*◌, ◌/◌, ◌%◌, ◌^◌, ◌≤◌, ◌<◌, ◌≡◌, refl, ltb, ltb-false, Bool-cases, inl, inr,
  true, false, lt→ltb, Bool, if◌then◌else◌, ◌&&◌, ◌||◌, ◌==◌, arith,
}
use native.Mathlib.Nat.{div-add-mod', mod-lt}
use accounts_superposition_s.Go.{unit_fuel, round_at, round53, times_030, with_margin}

-- A unit that is taken leaves at least 52 bits of the number above it.
unit_fuel-le : (f n u : ℕ) → u * 2 ^ 52 ≤ n → unit_fuel f n u * 2 ^ 52 ≤ n
unfolding unit_fuel
unit_fuel-le zero n u h = h
unit_fuel-le (suc f) n u h = elim (Bool-cases (ltb n (u * 2 ^ 53))) [
  | inl e ↦ rw e h
  | inr e ↦ rw e (unit_fuel-le f n (2 * u) (omega (arith, ltb-false _ _ e)))
]

pub unit_fuel-positive : (f n u : ℕ) → 0 < u → 0 < unit_fuel f n u
unfolding unit_fuel
unit_fuel-positive zero n u h = h
unit_fuel-positive (suc f) n u h = elim (Bool-cases (ltb n (u * 2 ^ 53))) [
  | inl e ↦ rw e h
  | inr e ↦ rw e (unit_fuel-positive f n (2 * u) (omega arith))
]

-- Rounding to a multiple of the unit moves by half a unit at most.
chosen :
    (u n m m' r : ℕ) (odd : Bool)
    → m' ≡ m + u
    → m + r ≡ n
    → r < u
    → let rounded = if ltb u (2 * r) || 2 * r == u && odd then m' else m in
      (2 * rounded ≤ 2 * n + u) × (2 * n ≤ 2 * rounded + u)
chosen u n m m' r true next whole rest = (ground arith, ground arith)
chosen u n m m' r false next whole rest = (ground arith, ground arith)

near :
    (u n q r : ℕ)
    → q * u + r ≡ n
    → r < u
    → let rounded = if ltb u (2 * r) || 2 * r == u && q % 2 == 1 then (q + 1) * u else q * u in
      (2 * rounded ≤ 2 * n + u) × (2 * n ≤ 2 * rounded + u)
near u n q r whole rest = chosen u n (q * u) ((q + 1) * u) r (q % 2 == 1) (omega arith) whole rest

round_at-near : (u n : ℕ) → 0 < u → (2 * round_at u n ≤ 2 * n + u) × (2 * n ≤ 2 * round_at u n + u)
unfolding round_at
round_at-near u n h = near u n (n / u) (n % u) (div-add-mod' n u) (mod-lt n h)

pub round53-wide : (n : ℕ) → ltb n (2 ^ 53) ≡ false → round53 n ≡ round_at (unit_fuel 128 n 1) n
unfolding round53
round53-wide n e = rw e refl

pub round53-narrow : (n : ℕ) → ltb n (2 ^ 53) ≡ true → round53 n ≡ n
unfolding round53
round53-narrow n e = rw e refl

wide_near :
    (w n m : ℕ)
    → w * 2 ^ 52 ≤ n
    → (2 * m ≤ 2 * n + w) × (2 * n ≤ 2 * m + w)
    → (2 ^ 53 * m ≤ (2 ^ 53 + 1) * n) × (2 ^ 53 * n ≤ 2 ^ 53 * m + n)
wide_near w n m small (above, below) = (omega arith, omega arith)

-- Rounding to 53 bits moves by a 2 ^ 53-th of the number at most.
pub round53-near :
    (n : ℕ) → (2 ^ 53 * round53 n ≤ (2 ^ 53 + 1) * n) × (2 ^ 53 * n ≤ 2 ^ 53 * round53 n + n)
round53-near n = elim (Bool-cases (ltb n (2 ^ 53))) [
  | inl e ↦ rw (round53-narrow n e) (omega arith, omega arith)
  | inr e ↦
      let w = unit_fuel 128 n 1 in
      rw (round53-wide n e) (
        wide_near w n (round_at w n) (unit_fuel-le 128 n 1 (omega (arith, ltb-false _ _ e)))
          (round_at-near w n (unit_fuel-positive 128 n 1 (omega arith))))
]

times_030-narrow :
    (g : ℕ) → g < 2 ^ 53 → times_030 g ≡ round53 (g * 5404319552844595) / 2 ^ 54 % 2 ^ 64
unfolding times_030
times_030-narrow g small = rw (round53-narrow g (lt→ltb g (2 ^ 53) small)) refl

thirty :
    (g y : ℕ)
    → g < 2 ^ 53
    → 2 ^ 53 * y ≤ (2 ^ 53 + 1) * (g * 5404319552844595)
    → 2 ^ 53 * (g * 5404319552844595) ≤ 2 ^ 53 * y + g * 5404319552844595
    → (10 * (y / 2 ^ 54 % 2 ^ 64) ≤ 3 * g + 3) × (3 * g ≤ 10 * (y / 2 ^ 54 % 2 ^ 64) + 14)
thirty g y small above below = (omega arith, omega arith)

times_030-near :
    (g : ℕ) → g < 2 ^ 53 → (10 * times_030 g ≤ 3 * g + 3) × (3 * g ≤ 10 * times_030 g + 14)
times_030-near g small =
    let (above, below) = round53-near (g * 5404319552844595) in
    rw (times_030-narrow g small) (thirty g (round53 (g * 5404319552844595)) small above below)

-- The gas limit is the estimate and three tenths of it, up to two units of gas, for an estimate below
-- 2 ^ 53. It does not wrap around and is not below the estimate.
pub with_margin-bounds :
    (g : ℕ)
    → g < 2 ^ 53
    → (g ≤ with_margin g) × (10 * with_margin g ≤ 13 * g + 3) × (13 * g ≤ 10 * with_margin g + 14)
unfolding with_margin
with_margin-bounds g small =
    let (above, below) = times_030-near g small in (omega arith, omega arith, omega arith)
