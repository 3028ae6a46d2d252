-- ===== src/Convertor/Payoff.antt =====
-- The markets of a claim.
use accounts_superposition_s.Prelude.{
  ◌≡◌, refl, Bytes, List, [], ◌∷◌, true, All, map, Bool-cases, inl, inr, arith,
}
use accounts_superposition_s.Outcome.{Outcome, ok, err, panic, fatal, ◌>>=◌}
use accounts_superposition_s.World.{Externals}
use accounts_superposition_s.Convertor.Request.{payoff_markets}

then-ok :
    {A B : Type 0} (m : Outcome A) (f : A → B) {b : B}
    → (m >>= λ a. ok (f a)) ≡ ok b
    → (a : A) × (m ≡ ok a) × (b ≡ f a)
then-ok (ok a) f p = (a, refl, ground (arith, p))
then-ok (err e) f p = absurd (cc)
then-ok panic f p = absurd (cc)
then-ok (fatal e) f p = absurd (cc)

module _ (x : Externals) where
  abbrev pub IsAddress : Bytes → Type 0
  IsAddress m = x.is_hex_address m ≡ true

  payoff_markets-All :
      (markets : List Bytes)
      → All IsAddress markets
      → payoff_markets x markets ≡ ok (map x.hex_to_address markets)
  unfolding payoff_markets
  payoff_markets-All [] h = refl
  payoff_markets-All (m ∷ ms) (hm, hs) = rw (hm, payoff_markets-All ms hs)

  payoff_markets_only :
      (markets addresses : List Bytes)
      → payoff_markets x markets ≡ ok addresses
      → All IsAddress markets
  unfolding payoff_markets
  payoff_markets_only [] addresses p = tt
  payoff_markets_only (m ∷ ms) addresses p = elim (Bool-cases (x.is_hex_address m)) [
    | inl e ↦
        let (rest, value, last) =
          then-ok (payoff_markets x ms) (λ l. x.hex_to_address m ∷ l) (rw e at p) in
        (e, payoff_markets_only ms rest value)
    | inr e ↦ absurd (cc (rw e at p))
  ]

  -- The markets of a claim are accepted exactly when every one of them is an address, and they are
  -- then those addresses, in order.
  pub payoff_markets_iff :
      (markets : List Bytes)
      → (All IsAddress markets → payoff_markets x markets ≡ ok (map x.hex_to_address markets))
        × ((addresses : List Bytes)
            → payoff_markets x markets ≡ ok addresses
            → All IsAddress markets)
  payoff_markets_iff markets = (payoff_markets-All markets, payoff_markets_only markets)
