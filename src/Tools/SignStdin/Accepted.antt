-- ===== src/Tools/SignStdin/Accepted.antt =====
-- The signature of the tool, as the server reads it.
use accounts_superposition_s.Prelude.{
  ℕ, ◌<◌, ◌≡◌, refl, sym, Bytes, codes, List, ◌∷◌, ◌++◌, Bool, true, Option, append_assoc, length,
  ℤ, pos, IsArray, arith,
}
use accounts_superposition_s.Outcome.{ok}
use accounts_superposition_s.Exec.Progress.{Returns}
use accounts_superposition_s.Go.{copy, hex_encode, trim_prefix, itoa}
use accounts_superposition_s.Go.HexLaws.{hex_decode_string-hex_encode}
use accounts_superposition_s.Go.CopyLaws.{copy_full}
use accounts_superposition_s.Types.{zeros}
use accounts_superposition_s.World.{answer, Externals, History}
use accounts_superposition_s.ClientAddr.{get_client_addr}
use accounts_superposition_s.Graph.Resolver.{Config, Context}
use accounts_superposition_s.Graph.Account.{recovery_id, be32, secret_preimage, request_secret}
use accounts_superposition_s.Graph.Secrets.{IsSignedBy}
use accounts_superposition_s.Graph.Nonces.{length-signed_text}
use accounts_superposition_s.System.Provenance.{kept_as}
use accounts_superposition_s.System.Replay.{Used}
use accounts_superposition_s.System.Serving.{IsServing, request_secret-Returns}
use accounts_superposition_s.Tools.Command.{argument, Tooling, Printed}
use accounts_superposition_s.Tools.Signature.{IsSignature, MakesSignatures, printed-IsSignature}
use accounts_superposition_s.Tools.Inversion.{must-answer}
use accounts_superposition_s.Tools.SignStdin.{preimage_of, plus_27, sign_stdin}

-- what `accounts-9lives.rc` gives to the tool: the service's key and the nonce, in hex
abbrev pub secret_text : Bytes → ℤ → Bytes
secret_text key nonce = hex_encode key ++ hex_encode (be32 nonce)

itoa_72 : itoa 72 ≡ codes "72"
unfolding itoa
itoa_72 = refl

preimage_of-secret_text :
    (key : Bytes) (nonce : ℤ)
    → length key ≡ 32
    → preimage_of (secret_text key nonce) ≡ secret_preimage key nonce
unfolding preimage_of secret_preimage
preimage_of-secret_text key nonce size =
    rw (length-signed_text key nonce size, itoa_72)
      (sym (
        append_assoc (25 ∷ codes "Ethereum Signed Message:\n72") (hex_encode key)
          (hex_encode (be32 nonce))))

recovery_id-plus_27 : (v : ℕ) → v < 2 → recovery_id (pos (plus_27 v)) ≡ ok v
unfolding recovery_id
recovery_id-plus_27 v h = ground (arith)

copied : (b : Bytes) → IsArray 32 b → copy (zeros 32) b ≡ b
copied b a = copy_full (zeros 32) b (sym a.size)

module _ (x : Externals) (t : Tooling) (makes : MakesSignatures x t) (key : Bytes)
    (size : length key ≡ 32) where
  IsSignature-IsSignedBy :
      (nonce : ℤ) (priv_key sig : Bytes)
      (is : IsSignature x (x.keccak256 (secret_preimage key nonce)) priv_key sig)
      → IsSignedBy x key
          (x.pubkey_to_address (x.public_key priv_key))
          nonce
          (pos (plus_27 is.v))
          (hex_encode is.r)
          (hex_encode is.s)
  IsSignature-IsSignedBy nonce priv_key sig is = record {
    r_bytes = is.r;
    s_bytes = is.s;
    v_byte = is.v;
    pub_key = x.public_key priv_key;
    r_decoded = hex_decode_string-hex_encode is.r is.r_array.bytes;
    s_decoded = hex_decode_string-hex_encode is.s is.s_array.bytes;
    s_small = is.s_small;
    v_decoded = recovery_id-plus_27 is.v is.v_bit;
    recovered = rw (copied is.r is.r_array, copied is.s is.s_array, ← is.parts) is.recovers;
    owner = refl;
  }

  sign_stdin-IsSignedBy :
      (name secret_key : Bytes) (more : List Bytes) (nonce : ℤ) (priv_key : Bytes) (p : Printed)
      → x.hex_to_ecdsa (trim_prefix secret_key (codes "0x")) ≡ answer priv_key
      → sign_stdin x t (name ∷ secret_key ∷ more) (answer (secret_text key nonce)) ≡ ok p
      → IsSignedBy x key (x.pubkey_to_address (x.public_key priv_key)) nonce (pos p.v) p.r p.s
  unfolding sign_stdin argument
  sign_stdin-IsSignedBy name secret_key more nonce priv_key p known q =
      let (sig, signed, shown) =
        must-answer _ (rw (known, preimage_of-secret_text key nonce size) at q) in
      let is = makes _ priv_key sig signed in
      rw (← printed-IsSignature plus_27 is shown) (IsSignature-IsSignedBy nonce priv_key sig is)

  -- A wallet that signs with the tool is served: what the tool prints for the service's key and a
  -- nonce, sent to the server with the address of the signing key, is given a secret, if the address
  -- has an account and has not used the nonce, and the outside answers.
  pub request_secret-sign_stdin :
      (r : Config) (ctx : Context) (name secret_key : Bytes) (more : List Bytes) (eoa : Bytes)
      (nonce : ℤ) (priv_key : Bytes) (dryrun : Option Bool) (p : Printed) (h : History)
      → r.acc_pub_key ≡ key
      → x.is_hex_address eoa ≡ true
      → x.hex_to_address eoa ≡ x.pubkey_to_address (x.public_key priv_key)
      → x.hex_to_ecdsa (trim_prefix secret_key (codes "0x")) ≡ answer priv_key
      → sign_stdin x t (name ∷ secret_key ∷ more) (answer (secret_text key nonce)) ≡ ok p
      → IsServing x
          (get_client_addr x r.accounts_factory_addr (x.hex_to_address eoa))
          (kept_as x r eoa)
          nonce
      → ¬ Used x (kept_as x r eoa) nonce h
      → Returns (request_secret x r ctx eoa nonce (pos p.v) p.r p.s dryrun) h
  request_secret-sign_stdin r ctx name secret_key more eoa nonce priv_key dryrun p h service hex
        owner known q =
      request_secret-Returns x r ctx eoa nonce (pos p.v) p.r p.s dryrun h hex
        (rw (service, owner) (sign_stdin-IsSignedBy name secret_key more nonce priv_key p known q))
