-- ===== src/Client/Double.antt =====
-- The arithmetic of the gas margin stays within float64 and uint64.
use accounts_superposition_s.Prelude.{
  ℕ, zero, suc, ◌+◌, ◌*◌, ◌/◌, ◌%◌, ◌^◌, ◌≤◌, ◌<◌, ◌≡◌, refl, sym, ap, ◌∙◌, ltb, Bool-cases, inl,
  inr, true, false, ltb→lt, Bool, if◌then◌else◌, ◌&&◌, ◌||◌, ◌==◌, arith,
}
use native.Mathlib.Nat.{pow-succ', div-lt_iff_lt-mul}
use accounts_superposition_s.Go.{unit_fuel, round_at, round53, times_030, with_margin}
use accounts_superposition_s.Client.Margin.{
  round53-wide, round53-narrow, round53-near, unit_fuel-positive,
}

-- A whole float64: a significand of 53 bits, times a power of two.
pub record IsDouble (n : ℕ) : Type 0 where
  pub significand : ℕ
  pub exponent : ℕ
  pub value : n ≡ significand * 2 ^ exponent
  pub fits : significand ≤ 2 ^ 53

-- the unit after all of the rounds
abbrev doubled : ℕ → ℕ → ℕ
doubled zero u = u
doubled (suc f) u = doubled f (2 * u)

-- The rounds are enough for a number that is below the last unit's bound.
unit_fuel-enough : (f n u : ℕ) → n < doubled f u * 2 ^ 53 → n < unit_fuel f n u * 2 ^ 53
unfolding unit_fuel
unit_fuel-enough zero n u h = h
unit_fuel-enough (suc f) n u h = elim (Bool-cases (ltb n (u * 2 ^ 53))) [
  | inl e ↦ rw e (ltb→lt n (u * 2 ^ 53) e)
  | inr e ↦ rw e (unit_fuel-enough f n (2 * u) h)
]

unit_fuel-power : (f n u k : ℕ) → u ≡ 2 ^ k → (k' : ℕ) × (unit_fuel f n u ≡ 2 ^ k')
unfolding unit_fuel
unit_fuel-power zero n u k e = (k, e)
unit_fuel-power (suc f) n u k e = elim (Bool-cases (ltb n (u * 2 ^ 53))) [
  | inl small ↦ rw small (k, e)
  | inr big ↦ rw big (unit_fuel-power f n (2 * u) (suc k) (ap (λ v. 2 * v) e ∙ sym (pow-succ' 2 k)))
]

one_of :
    (b : Bool) (u q : ℕ)
    → q < 2 ^ 53
    → (s : ℕ) × ((if b then (q + 1) * u else q * u) ≡ s * u) × (s ≤ 2 ^ 53)
one_of true u q h = (q + 1, refl, omega arith)
one_of false u q h = (q, refl, omega arith)

round_at-IsDouble : (u n k : ℕ) → 0 < u → u ≡ 2 ^ k → n < u * 2 ^ 53 → IsDouble (round_at u n)
unfolding round_at
round_at-IsDouble u n k positive power small =
    let r = n % u in
    let (s, value, fits) =
      one_of (ltb u (2 * r) || 2 * r == u && n / u % 2 == 1) u (n / u)
        ((div-lt_iff_lt-mul positive).1 (omega arith)) in
    record { significand = s; exponent = k; value = value ∙ ap (λ v. s * v) power; fits = fits }

round53-IsDouble : (n : ℕ) → n < 2 ^ 181 → IsDouble (round53 n)
round53-IsDouble n small = elim (Bool-cases (ltb n (2 ^ 53))) [
  | inl e ↦ rw (round53-narrow n e) (record {
    significand = n;
    exponent = 0;
    value = omega arith;
    fits = omega (arith, ltb→lt n (2 ^ 53) e);
  })
  | inr e ↦
      let (k, power) = unit_fuel-power 128 n 1 0 refl in
      rw (round53-wide n e) (
        round_at-IsDouble (unit_fuel 128 n 1) n k (unit_fuel-positive 128 n 1 (omega arith)) power
          (unit_fuel-enough 128 n 1 small))
]

product_small :
    (g p : ℕ) → g < 2 ^ 64 → 2 ^ 53 * p ≤ (2 ^ 53 + 1) * g → p * 5404319552844595 < 2 ^ 117
product_small g p small near = omega arith

quotient_small : (n y : ℕ) → n < 2 ^ 117 → 2 ^ 53 * y ≤ (2 ^ 53 + 1) * n → y / 2 ^ 54 < 2 ^ 64
quotient_small n y small near = omega arith

no_wrap :
    (g : ℕ)
    → round53 (round53 g * 5404319552844595) / 2 ^ 54 < 2 ^ 64
    → times_030 g ≡ round53 (round53 g * 5404319552844595) / 2 ^ 54
unfolding times_030
no_wrap g small = omega arith

-- The gas limit of an estimate of 64 bits is computed within the machine's types: the estimate as a
-- float64 and its product with 0.30, which is taken as 5404319552844595 / 2 ^ 54, are whole numbers
-- of 53 significant bits times a power of two, and the product's whole part fits into 64 bits, so
-- that only the last addition may wrap around.
pub with_margin-IsDouble :
    (g : ℕ)
    → g < 2 ^ 64
    → IsDouble (round53 g)
      × IsDouble (round53 (round53 g * 5404319552844595))
      × (round53 (round53 g * 5404319552844595) / 2 ^ 54 < 2 ^ 64)
      × (with_margin g ≡ (g + round53 (round53 g * 5404319552844595) / 2 ^ 54) % 2 ^ 64)
unfolding with_margin
with_margin-IsDouble g small =
    let p = round53 g in
    let product = product_small g p small (round53-near g).0 in
    let whole =
      quotient_small (p * 5404319552844595) _ product (round53-near (p * 5404319552844595)).0 in
    (
      round53-IsDouble g (omega (arith, small)),
      round53-IsDouble (p * 5404319552844595) (omega (arith, product)),
      whole,
      ap (λ t. (g + t) % 2 ^ 64) (no_wrap g whole),
    )
