-- ===== src/Tools/Signature.antt =====
-- What go-ethereum documents of `Sign`, and the object that the programs print of a signature.
use accounts_superposition_s.Prelude.{
  ℕ, zero, suc, ◌+◌, ◌<◌, ◌≤◌, ◌≡◌, refl, ap, sym, ◌∙◌, Bytes, [], ◌∷◌, ◌++◌, length, take, drop,
  take-append, drop-append, append_assoc, IsArray, arith,
}
use accounts_superposition_s.Outcome.{Outcome, ok, ok-injective}
use accounts_superposition_s.Go.{hex_encode, set_bytes}
use accounts_superposition_s.World.{answer, Externals}
use accounts_superposition_s.Graph.Resolver.{secp_max_s}
use accounts_superposition_s.Tools.Command.{Tooling, Printed, last_byte, printed}

-- The signature is R, S and V, where V is 0 or 1 and S is in the lower half, and it recovers to the
-- key that made it.
pub record IsSignature (x : Externals) (digest key sig : Bytes) : Type 0 where
  pub r : Bytes
  pub s : Bytes
  pub v : ℕ
  pub parts : sig ≡ r ++ s ++ v ∷ []
  pub r_array : IsArray 32 r
  pub s_array : IsArray 32 s
  pub v_bit : v < 2
  pub s_small : set_bytes s ≤ secp_max_s
  pub recovers : x.sig_to_pub digest sig ≡ answer (x.public_key key)

-- `Sign` makes signatures.
abbrev pub MakesSignatures : Externals → Tooling → Type 0
MakesSignatures x t =
    (digest key sig : Bytes) → t.sign digest key ≡ answer sig → IsSignature x digest key sig

take_at : (n : ℕ) (a b : Bytes) → length a ≡ n → take n (a ++ b) ≡ a
take_at n a b e = ap (λ k. take k (a ++ b)) (sym e) ∙ take-append a b

drop_at : (n : ℕ) (a b : Bytes) → length a ≡ n → drop n (a ++ b) ≡ b
drop_at n a b e = ap (λ k. drop k (a ++ b)) (sym e) ∙ drop-append a b

drop-nil : (n : ℕ) → drop {A = ℕ} n [] ≡ []
drop-nil zero = refl
drop-nil (suc n) = refl

drop_add : (m n : ℕ) (b : Bytes) → drop (m + n) b ≡ drop n (drop m b)
drop_add zero n b = ap (λ k. drop k b) (omega arith)
drop_add (suc m) n [] = drop-nil (suc m + n) ∙ sym (drop-nil n)
drop_add (suc m) n (x ∷ b) = ap (λ k. drop k (x ∷ b)) suc_over ∙ drop_add m n b
  where
    suc_over : suc m + n ≡ suc (m + n)
    suc_over = omega arith

abbrev shown : (ℕ → ℕ) → Bytes → Bytes → ℕ → Outcome Printed
shown change r s v = ok (record { v = change v; r = hex_encode r; s = hex_encode s })

printed_at :
    (change : ℕ → ℕ) (sig : Bytes) (v : ℕ)
    → drop 64 sig ≡ v ∷ []
    → printed change sig ≡ shown change (take 32 sig) (take 32 (drop 32 sig)) v
unfolding printed last_byte
printed_at change sig v e = rw e refl

printed-signature :
    (change : ℕ → ℕ) (r s : Bytes) (v : ℕ)
    → length r ≡ 32
    → length s ≡ 32
    → printed change (r ++ s ++ v ∷ [])
      ≡ ok (record { v = change v; r = hex_encode r; s = hex_encode s })
printed-signature change r s v lr ls =
    let sig = r ++ s ++ v ∷ [] in
    let split : sig ≡ r ++ (s ++ v ∷ []) = append_assoc r s (v ∷ []) in
    let rest : drop 32 sig ≡ s ++ v ∷ [] = ap (drop 32) split ∙ drop_at 32 r (s ++ v ∷ []) lr in
    printed_at change sig v (drop_add 32 32 sig ∙ ap (drop 32) rest ∙ drop_at 32 s (v ∷ []) ls)
    ∙ ap (λ a. shown change a (take 32 (drop 32 sig)) v)
        (ap (take 32) split ∙ take_at 32 r (s ++ v ∷ []) lr)
    ∙ ap (λ b. shown change r b v) (ap (take 32) rest ∙ take_at 32 s (v ∷ []) ls)

-- What was printed, field by field.
pub printed-IsSignature :
    (change : ℕ → ℕ) {x : Externals} {digest key sig : Bytes} {p : Printed}
    (is : IsSignature x digest key sig)
    → printed change sig ≡ ok p
    → record { v = change is.v; r = hex_encode is.r; s = hex_encode is.s } ≡ p
printed-IsSignature change is e = ok-injective (
    sym (printed-signature change is.r is.s is.v is.r_array.size is.s_array.size)
    ∙ ap (printed change) (sym is.parts)
    ∙ e)
