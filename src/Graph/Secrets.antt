-- ===== src/Graph/Secrets.antt =====
-- When `RequestSecret` hands out a secret.
use accounts_superposition_s.Prelude.{
  ℕ, ◌≤◌, ◌≡◌, refl, sym, Bytes, ◌∷◌, [], ◌++◌, Bool, true, false, not, Option, ℤ, ltb, ltb-false,
  bytes_eq, bytes_eq_iff,
}
use accounts_superposition_s.Outcome.{ok}
use accounts_superposition_s.Exec.{lift, wrap}
use accounts_superposition_s.Exec.Inversion.{
  Returned, lift-Returned, bind-Returned, wrap-Returned, refuse_if-Returned,
}
use accounts_superposition_s.Go.{copy, hex_decode_string, set_bytes}
use accounts_superposition_s.Types.{zeros}
use accounts_superposition_s.World.{answer, outcome, History, Externals}
use accounts_superposition_s.Client.Sent.{outcome-eq-ok}
use accounts_superposition_s.Graph.Resolver.{Config, Context, secp_max_s}
use accounts_superposition_s.Graph.Account.{recovery_id, secret_preimage, request_secret}

pub not-eq-false : (b : Bool) → not b ≡ false → b ≡ true
not-eq-false true h = refl
not-eq-false false h = cc

-- The signature of the request recovers to the account's key, over the service's key and the nonce.
pub record IsSignedBy (x : Externals) (acc_pub_key eoa : Bytes) (nonce sig_v : ℤ)
    (sig_r sig_s : Bytes) : Type 0 where
  pub r_bytes : Bytes
  pub s_bytes : Bytes
  pub v_byte : ℕ
  pub pub_key : Bytes
  pub r_decoded : hex_decode_string sig_r ≡ ok r_bytes
  pub s_decoded : hex_decode_string sig_s ≡ ok s_bytes
  pub s_small : set_bytes s_bytes ≤ secp_max_s
  pub v_decoded : recovery_id sig_v ≡ ok v_byte
  pub recovered :
      x.sig_to_pub
        (x.keccak256 (secret_preimage acc_pub_key nonce))
        (copy (zeros 32) r_bytes ++ copy (zeros 32) s_bytes ++ v_byte ∷ [])
      ≡ answer pub_key
  pub owner : x.pubkey_to_address pub_key ≡ eoa

module _ (x : Externals) (acc_pub_key eoa : Bytes) (nonce sig_v : ℤ) (sig_r sig_s : Bytes) where
  -- The checks of `RequestSecret`, once each of them has been passed.
  pub IsSignedBy-intro :
      (r_bytes s_bytes : Bytes) (v_byte : ℕ) (pub_key : Bytes) {h h₁ h₂ h₃ h₄ h₅ : History}
      → Returned (wrap "decoding r: " (lift (hex_decode_string sig_r))) h r_bytes h₁
      → Returned (wrap "decoding s: " (lift (hex_decode_string sig_s))) h₁ s_bytes h₂
      → ltb secp_max_s (set_bytes s_bytes) ≡ false
      → Returned (lift (recovery_id sig_v)) h₃ v_byte h₄
      → Returned
          (wrap "recover pubkey: " (
            lift (
              outcome (
                x.sig_to_pub
                  (x.keccak256 (secret_preimage acc_pub_key nonce))
                  (copy (zeros 32) r_bytes ++ copy (zeros 32) s_bytes ++ v_byte ∷ [])))))
          h₄
          pub_key
          h₅
      → not (bytes_eq eoa (x.pubkey_to_address pub_key)) ≡ false
      → IsSignedBy x acc_pub_key eoa nonce sig_v sig_r sig_s
  IsSignedBy-intro r_bytes s_bytes v_byte pub_key p₂ p₃ small p₅ p₆ same = record {
    r_bytes = r_bytes;
    s_bytes = s_bytes;
    v_byte = v_byte;
    pub_key = pub_key;
    r_decoded = (lift-Returned (wrap-Returned _ _ p₂)).0;
    s_decoded = (lift-Returned (wrap-Returned _ _ p₃)).0;
    s_small = ltb-false _ _ small;
    v_decoded = (lift-Returned p₅).0;
    recovered = outcome-eq-ok _ (lift-Returned (wrap-Returned _ _ p₆)).0;
    owner = sym ((bytes_eq_iff _ _).0 (not-eq-false _ same));
  }

module _ (x : Externals) (r : Config) (ctx : Context) where
  -- A secret is only handed out if the text is an address, and the signature, decoded from the
  -- request, recovers that address's key from the service's key and the nonce, with the number of
  -- the sent S bytes at most half the curve's order.
  pub request_secret_sound :
      (eoa : Bytes) (nonce sig_v : ℤ) (sig_r sig_s : Bytes) (dryrun : Option Bool) (h : History)
      (secret : Bytes)
      → (request_secret x r ctx eoa nonce sig_v sig_r sig_s dryrun h).0 ≡ ok secret
      → (x.is_hex_address eoa ≡ true)
        × IsSignedBy x r.acc_pub_key (x.hex_to_address eoa) nonce sig_v sig_r sig_s
  unfolding request_secret
  request_secret_sound eoa nonce sig_v sig_r sig_s dryrun h secret p =
      let (u₁, h₁, p₁, rest₁) = bind-Returned (record { value = p; history = refl }) in
      let (sr, h₂, p₂, rest₂) = bind-Returned rest₁ in
      let (ss, h₃, p₃, rest₃) = bind-Returned rest₂ in
      let (u₄, h₄, p₄, rest₄) = bind-Returned rest₃ in
      let (v, h₅, p₅, rest₅) = bind-Returned rest₄ in
      let (key, h₆, p₆, rest₆) = bind-Returned rest₅ in
      let (u₇, h₇, p₇, rest₇) = bind-Returned rest₆ in
      (
        not-eq-false _ (refuse_if-Returned _ _ p₁).0,
        IsSignedBy-intro x r.acc_pub_key (x.hex_to_address eoa) nonce sig_v sig_r sig_s sr ss v key
            p₂ p₃ (refuse_if-Returned _ _ p₄).0 p₅ p₆ (refuse_if-Returned _ _ p₇).0,
      )
