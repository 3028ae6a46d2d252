-- ===== src/Graph/Nonces.antt =====
-- The text that a wallet signs to ask for a secret, and the check on its signature.
use accounts_superposition_s.Prelude.{
  ◌*◌, ◌≡◌, refl, ap, ◌∙◌, Bytes, [], ◌++◌, length, drop, drop-append, length-append, take,
  take-append, sym, IsByte, All, IsArray, ℤ, pos, negsuc, arith,
}
use accounts_superposition_s.Outcome.{Outcome, ok, err, panic, fatal}
use accounts_superposition_s.Go.{hex_encode, hex_decode_string}
use accounts_superposition_s.Go.HexLaws.{length-hex_encode, hex_decode_string-hex_encode}
use accounts_superposition_s.Model.{IsInt32}
use accounts_superposition_s.Graph.Account.{be32, secret_preimage}

abbrev decoded : Outcome Bytes → Bytes
decoded (ok b) = b
decoded (err e) = []
decoded panic = []
decoded (fatal e) = []

be32-IsByte : (n : ℤ) → All IsByte (be32 n)
unfolding be32
be32-IsByte (pos n) = omega arith
be32-IsByte (negsuc n) = omega arith

be32_injective : (m n : ℤ) → IsInt32 m → IsInt32 n → be32 m ≡ be32 n → m ≡ n
unfolding be32
be32_injective (pos m) (pos n) hm hn e = ap pos (ground arith)
be32_injective (pos m) (negsuc n) hm hn e = absurd (ground arith)
be32_injective (negsuc m) (pos n) hm hn e = absurd (ground arith)
be32_injective (negsuc m) (negsuc n) hm hn e = ap negsuc (ground arith)

length-be32 : (n : ℤ) → length (be32 n) ≡ 4
unfolding be32
length-be32 (pos n) = refl
length-be32 (negsuc n) = refl

hex_encode_injective :
    (a b : Bytes) → All IsByte a → All IsByte b → hex_encode a ≡ hex_encode b → a ≡ b
hex_encode_injective a b ha hb e =
    ap (λ o. decoded o)
      (sym (hex_decode_string-hex_encode a ha)
        ∙ ap hex_decode_string e
        ∙ hex_decode_string-hex_encode b hb)

-- The header of the signed text announces 72 bytes.
pub length-signed_text :
    (key : Bytes) (n : ℤ) → length key ≡ 32 → length (hex_encode key ++ hex_encode (be32 n)) ≡ 72
length-signed_text key n lk = omega (
  arith,
  length-append (hex_encode key) (hex_encode (be32 n)),
  length-hex_encode key,
  length-hex_encode (be32 n),
  length-be32 n,
)

append_inj_left : (a b c d : Bytes) → length a ≡ length b → a ++ c ≡ b ++ d → a ≡ b
append_inj_left a b c d l e =
    sym (take-append a c) ∙ ap (take (length a)) e ∙ ap (λ n. take n (b ++ d)) l ∙ take-append b d

append_inj_right : (a b c d : Bytes) → length a ≡ length b → a ++ c ≡ b ++ d → c ≡ d
append_inj_right a b c d l e =
    sym (drop-append a c) ∙ ap (drop (length a)) e ∙ ap (λ n. drop n (b ++ d)) l ∙ drop-append b d

module _ (key key' : Bytes) (m n : ℤ) (hk : IsArray 32 key) (hk' : IsArray 32 key') (hm : IsInt32 m)
    (hn : IsInt32 n) where
  -- The text that a wallet signs determines the key of 32 bytes and the nonce of 32 bits.
  pub secret_preimage_injective :
      secret_preimage key m ≡ secret_preimage key' n → (key ≡ key') × (m ≡ n)
  unfolding secret_preimage
  secret_preimage_injective e =
      let e1 : hex_encode key ++ hex_encode (be32 m) ≡ hex_encode key' ++ hex_encode (be32 n) =
        ap (drop 28) e in
      let l =
        length-hex_encode key
        ∙ ap (λ k. 2 * k) (hk.size ∙ sym hk'.size)
        ∙ sym (length-hex_encode key') in
      (
        hex_encode_injective key key' hk.bytes hk'.bytes (append_inj_left _ _ _ _ l e1),
        be32_injective m n hm hn (
            hex_encode_injective _ _ (be32-IsByte m) (be32-IsByte n)
              (append_inj_right _ _ _ _ l e1)),
      )
