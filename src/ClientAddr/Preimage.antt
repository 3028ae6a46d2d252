-- ===== src/ClientAddr/Preimage.antt =====
-- The bytes that `GetClientAddr` hashes.
use accounts_superposition_s.Prelude.{
  ℕ, zero, suc, ◌≡◌, refl, ap, ◌∙◌, Bytes, [], ◌∷◌, ◌++◌, length, take, arith, length-append,
  append_assoc, append-nil, sym,
}
use accounts_superposition_s.Go.{copy}
use accounts_superposition_s.Types.{zeros}
use accounts_superposition_s.World.{Externals}
use accounts_superposition_s.ClientAddr.{put, make_metamorphic_beacon_proxy_hash, create2_preimage}

copy_front : (z post src : Bytes) → length z ≡ length src → copy (z ++ post) src ≡ src ++ post
unfolding copy
copy_front [] [] [] h = refl
copy_front [] (p ∷ post) [] h = refl
copy_front [] post (s ∷ src) h = absurd (omega arith)
copy_front (z ∷ zs) post [] h = absurd (omega arith)
copy_front (z ∷ zs) post (s ∷ src) h = ap (λ l. s ∷ l) (copy_front zs post src (omega arith))

put_at :
    (pre z post src : Bytes) (lo : ℕ)
    → length pre ≡ lo
    → length z ≡ length src
    → put lo (pre ++ (z ++ post)) src ≡ pre ++ (src ++ post)
put_at [] z post src zero p q = copy_front z post src q
put_at [] z post src (suc lo) p q = absurd (omega arith)
put_at (x ∷ pre) z post src zero p q = absurd (omega arith)
put_at (x ∷ pre) z post src (suc lo) p q =
    ap (λ l. x ∷ l) (put_at pre z post src lo (omega arith) q)

take_exact : (n : ℕ) (xs : Bytes) → length xs ≡ n → take n xs ≡ xs
take_exact zero [] h = refl
take_exact zero (x ∷ xs) h = absurd (omega arith)
take_exact (suc n) [] h = refl
take_exact (suc n) (x ∷ xs) h = ap (λ l. x ∷ l) (take_exact n xs (omega arith))

put_three :
    (f k h : Bytes)
    → length f ≡ 20
    → length k ≡ 32
    → length h ≡ 32
    → put 53 (put 21 (put 1 (put 0 (zeros 85) (0xff ∷ [])) f) k) h ≡ 0xff ∷ (f ++ (k ++ h))
unfolding copy
put_three f k h lf lk lh =
    ap (λ d. put 53 (put 21 d k) h) (put_at (0xff ∷ []) (zeros 20) (zeros 64) f 1 refl (sym lf))
    ∙ ap (λ d. put 53 d h) (put_at (0xff ∷ f) (zeros 32) (zeros 32) k 21 (omega arith) (sym lk))
    ∙ ap (λ d. put 53 d h) (sym (append_assoc (0xff ∷ f) k (zeros 32)))
    ∙ ap (λ d. put 53 (((0xff ∷ f) ++ k) ++ d) h) (sym (append-nil (zeros 32)))
    ∙ put_at ((0xff ∷ f) ++ k) (zeros 32) [] h 53 (omega (arith, length-append (0xff ∷ f) k))
        (sym lh)
    ∙ ap (λ d. ((0xff ∷ f) ++ k) ++ d) (append-nil h)
    ∙ append_assoc (0xff ∷ f) k h

-- For a factory of 20 bytes and a hash of 32, these are the bytes of CREATE2: 0xff, the factory, the
-- hash of the owner's address as the salt, and the hash of the proxy's code.
pub create2_preimage_lem :
    (x : Externals) (factory eoa : Bytes)
    → length factory ≡ 20
    → length (x.keccak256 eoa) ≡ 32
    → length (make_metamorphic_beacon_proxy_hash x factory) ≡ 32
    → create2_preimage x factory eoa
      ≡ 0xff ∷ (factory ++ (x.keccak256 eoa ++ make_metamorphic_beacon_proxy_hash x factory))
unfolding create2_preimage
create2_preimage_lem x factory eoa lf le lh =
    rw
      (
        take_exact 20 factory lf,
        take_exact 32 (x.keccak256 eoa) le,
        take_exact 32 (make_metamorphic_beacon_proxy_hash x factory) lh,
      )
      (put_three factory (x.keccak256 eoa) (make_metamorphic_beacon_proxy_hash x factory) lf le lh)
