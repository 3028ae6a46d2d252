-- ===== src/Ninelives/Unpack.antt =====
-- `UnpackMint` on the calldata of a mint.
use accounts_superposition_s.Prelude.{
  ℕ, zero, suc, ◌+◌, ◌*◌, ◌≤◌, ◌≡◌, refl, ap, ◌∙◌, Bytes, [], ◌∷◌, ◌++◌, append_assoc, length, take,
  drop, length-append, ==_iff, arith,
}
use accounts_superposition_s.Outcome.{ok}
use accounts_superposition_s.Go.{copy}
use accounts_superposition_s.Go.CopyLaws.{copy_full}
use accounts_superposition_s.Types.{zeros}
use accounts_superposition_s.Ninelives.{slice, unpack_mint}

take_at : (xs ys : Bytes) (n : ℕ) → length xs ≡ n → take n (xs ++ ys) ≡ xs
take_at [] ys zero h = refl
take_at [] ys (suc n) h = absurd (omega arith)
take_at (x ∷ xs) ys zero h = absurd (omega arith)
take_at (x ∷ xs) ys (suc n) h = ap (λ l. x ∷ l) (take_at xs ys n (omega arith))

take_all : (xs : Bytes) (n : ℕ) → length xs ≡ n → take n xs ≡ xs
take_all [] zero h = refl
take_all [] (suc n) h = refl
take_all (x ∷ xs) zero h = absurd (omega arith)
take_all (x ∷ xs) (suc n) h = ap (λ l. x ∷ l) (take_all xs n (omega arith))

drop_at : (xs ys : Bytes) (n : ℕ) → length xs ≡ n → drop n (xs ++ ys) ≡ ys
drop_at [] ys zero h = refl
drop_at [] ys (suc n) h = absurd (omega arith)
drop_at (x ∷ xs) ys zero h = absurd (omega arith)
drop_at (x ∷ xs) ys (suc n) h = drop_at xs ys n (omega arith)

copy-take : (dst src : Bytes) (n : ℕ) → length dst ≤ n → copy dst (take n src) ≡ copy dst src
unfolding copy
copy-take [] src n h = refl
copy-take (d ∷ dst) [] zero h = refl
copy-take (d ∷ dst) [] (suc n) h = refl
copy-take (d ∷ dst) (s ∷ src) zero h = absurd (omega arith)
copy-take (d ∷ dst) (s ∷ src) (suc n) h = ap (λ l. s ∷ l) (copy-take dst src n (omega arith))

copy_prefix : (dst xs ys : Bytes) → length dst ≡ length xs → copy dst (xs ++ ys) ≡ xs
unfolding copy
copy_prefix [] [] ys h = refl
copy_prefix [] (x ∷ xs) ys h = absurd (omega arith)
copy_prefix (d ∷ dst) [] ys h = absurd (omega arith)
copy_prefix (d ∷ dst) (x ∷ xs) ys h = ap (λ l. x ∷ l) (copy_prefix dst xs ys (omega arith))

slice_at :
    (pre w post : Bytes) (lo : ℕ)
    → length pre ≡ lo
    → length w ≡ 32
    → take 32 (drop lo (pre ++ (w ++ post))) ≡ w
slice_at pre w post lo p q = rw (drop_at pre (w ++ post) lo p) (take_at w post 32 q)

-- The calldata of a mint in the contract ABI: the selector, `bytes8` filled up on the right, the
-- word of the amount, and the two addresses filled up on the left.
abbrev pub packed : Bytes → Bytes → Bytes → Bytes → Bytes → Bytes
packed selector outcome value referrer recipient =
    selector
    ++ ((outcome ++ zeros 24) ++ (value ++ ((zeros 12 ++ referrer) ++ (zeros 12 ++ recipient))))

module _ (selector w1 w2 w3 w4 : Bytes) (s : length selector ≡ 4) (l1 : length w1 ≡ 32)
    (l2 : length w2 ≡ 32) (l3 : length w3 ≡ 32) (l4 : length w4 ≡ 32) where
  abbrev words : Bytes
  words = selector ++ (w1 ++ (w2 ++ (w3 ++ w4)))

  length-words : length words ≡ 4 + 32 * 4
  length-words = omega (
    arith,
    length-append selector (w1 ++ (w2 ++ (w3 ++ w4))),
    length-append w1 (w2 ++ (w3 ++ w4)),
    length-append w2 (w3 ++ w4),
    length-append w3 w4,
  )

  word1 : slice 4 36 words ≡ w1
  word1 = slice_at selector w1 (w2 ++ (w3 ++ w4)) 4 s l1

  word2 : slice 36 68 words ≡ w2
  word2 =
      rw (← append_assoc selector w1 (w2 ++ (w3 ++ w4)))
        (slice_at (selector ++ w1) w2 (w3 ++ w4) 36 (omega (arith, length-append selector w1)) l2)

  word3 : slice 68 100 words ≡ w3
  word3 =
      rw
        (
          ← append_assoc selector w1 (w2 ++ (w3 ++ w4)),
          ← append_assoc (selector ++ w1) w2 (w3 ++ w4),
        )
        (slice_at (selector ++ w1 ++ w2) w3 w4 68
          (omega (arith, length-append selector w1, length-append (selector ++ w1) w2)) l3)

  prefix-100 : length (selector ++ w1 ++ w2 ++ w3) ≡ 100
  prefix-100 = omega (
    arith,
    length-append selector w1,
    length-append (selector ++ w1) w2,
    length-append (selector ++ w1 ++ w2) w3,
  )

  word4 : slice 100 132 words ≡ w4
  word4 =
      rw
        (
          ← append_assoc selector w1 (w2 ++ (w3 ++ w4)),
          ← append_assoc (selector ++ w1) w2 (w3 ++ w4),
          ← append_assoc (selector ++ w1 ++ w2) w3 w4,
          drop_at (selector ++ w1 ++ w2 ++ w3) w4 100 prefix-100,
        )
        (take_all w4 32 l4)

  unpack_mint-words :
      unpack_mint words
      ≡ ok (record {
        outcome = copy (zeros 8) (take 24 w1);
        value = copy (zeros 32) w2;
        referrer = copy (copy (zeros 20) (take 12 w3)) (take 12 w4);
        recipient = zeros 20;
      })
  unfolding unpack_mint
  unpack_mint-words = rw ((==_iff (length words) 132).1 length-words, word1, word2, word3, word4)

-- On the ABI calldata of a mint, `UnpackMint` gives back the outcome and the amount, and the zero
-- address for both the referrer and the recipient, whatever they are.
pub unpack_mint-packed :
    (selector outcome value referrer recipient : Bytes)
    → length selector ≡ 4
    → length outcome ≡ 8
    → length value ≡ 32
    → length referrer ≡ 20
    → length recipient ≡ 20
    → unpack_mint (packed selector outcome value referrer recipient)
      ≡ ok (record { outcome = outcome; value = value; referrer = zeros 20; recipient = zeros 20 })
unpack_mint-packed selector outcome value referrer recipient s lo lv lr lp =
    unpack_mint-words selector (outcome ++ zeros 24) value (zeros 12 ++ referrer)
      (zeros 12 ++ recipient) s (omega (arith, length-append outcome (zeros 24))) lv (omega arith)
      (omega arith)
    ∙ rw
        (
          copy-take (zeros 8) (outcome ++ zeros 24) 24 (omega arith),
          copy_prefix (zeros 8) outcome (zeros 24) (omega arith),
          copy_full (zeros 32) value (omega arith),
        )
        (unfold copy in refl)
