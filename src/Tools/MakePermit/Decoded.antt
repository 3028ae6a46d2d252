-- ===== src/Tools/MakePermit/Decoded.antt =====
-- The permit of the tool, as the server reads it.
use accounts_superposition_s.Prelude.{
  ℕ, ◌+◌, ◌<◌, ◌≡◌, refl, ap, ◌∙◌, Bytes, [], ◌∷◌, ◌++◌, some, ℤ, pos, nat_abs, codes, IsArray,
  arith,
}
use accounts_superposition_s.Outcome.{ok}
use accounts_superposition_s.Go.{set_string, big_bytes, hex_encode}
use accounts_superposition_s.World.{answer, Externals}
use accounts_superposition_s.Convertor.{str_to_bytes, checked_v}
use accounts_superposition_s.Convertor.DecodeLaws.{str_to_bytes-hex_encode}
use accounts_superposition_s.Tools.Command.{argument, Tooling, Printed}
use accounts_superposition_s.Tools.Signature.{IsSignature, MakesSignatures, printed-IsSignature}
use accounts_superposition_s.Tools.Inversion.{must-answer, must_some-ok}
use accounts_superposition_s.Tools.MakePermit.{
  at_least_27, domain_sep, struct_hash, permit_digest, make_permit,
}

module _ (x : Externals) (t : Tooling) where
  -- The hash of a text, and a number as a word.
  abbrev hashed : Bytes → Bytes
  hashed b = t.keccak256_all (b ∷ [])

  abbrev word : ℤ → Bytes
  word z = x.left_pad_bytes (big_bytes (nat_abs z)) 32

  -- EIP-712's digest of the message of ERC-2612, that `spender` may spend any amount of `owner`.
  abbrev pub erc2612_digest : (token owner spender : Bytes) (nonce deadline : ℤ) → Bytes
  erc2612_digest token owner spender nonce deadline =
      let domain_type = hashed (
        codes
          "EIP712Domain(string name,string version,uint256 chainId,address verifyingContract)") in
      let permit_type = hashed (
        codes
          "Permit(address owner,address spender,uint256 value,uint256 nonce,uint256 deadline)") in
      let domain = t.keccak256_all (
        domain_type
        ∷ hashed (codes "Bridged USDC (Stargate)")
        ∷ hashed (codes "2")
        ∷ t.big_to_hash (pos 55244)
        ∷ x.left_pad_bytes token 32
        ∷ []) in
      let message = t.keccak256_all (
        permit_type
        ∷ x.left_pad_bytes owner 32
        ∷ x.left_pad_bytes spender 32
        ∷ t.max_hash
        ∷ word nonce
        ∷ word deadline
        ∷ []) in
      t.keccak256_hash ((25 ∷ 1 ∷ []) ∷ domain ∷ message ∷ [])

-- The server reads `p` as a signature, by the owner of the key, of the permit of the arguments.
pub record IsReadAs (x : Externals) (t : Tooling)
    (key accounts nonce_text token deadline_text : Bytes) (p : Printed) : Type 0 where
  pub priv_key : Bytes
  pub nonce : ℤ
  pub deadline : ℤ
  pub r : Bytes
  pub s : Bytes
  pub v : ℕ
  pub key_read : x.hex_to_ecdsa key ≡ answer priv_key
  pub nonce_read : set_string nonce_text ≡ some nonce
  pub deadline_read : set_string deadline_text ≡ some deadline
  pub r_read : str_to_bytes 32 p.r ≡ ok r
  pub s_read : str_to_bytes 32 p.s ≡ ok s
  pub v_read : checked_v (pos p.v) ≡ ok (v + 27)
  pub v_bit : v < 2
  pub signed :
      t.sign
        (erc2612_digest x t
          (x.hex_to_address token)
          (x.pubkey_to_address (x.public_key priv_key))
          (x.hex_to_address accounts)
          nonce
          deadline)
        priv_key
      ≡ answer (r ++ s ++ v ∷ [])

str_to_bytes-array : (b : Bytes) → IsArray 32 b → str_to_bytes 32 (hex_encode b) ≡ ok b
str_to_bytes-array b a = (str_to_bytes-hex_encode 32 b a.bytes).0 ∙ rw a.size refl

checked_v-at_least_27 : (v : ℕ) → v < 2 → checked_v (pos (at_least_27 v)) ≡ ok (v + 27)
unfolding checked_v
checked_v-at_least_27 v h = ground (arith)

module _ (x : Externals) (t : Tooling) (makes : MakesSignatures x t) where
  -- What the tool prints is read by the server, from the fields of a permit, as R, S and V of the
  -- signature that the key makes of the permit of the arguments, as ERC-2612 has it, with V raised to
  -- 27 or 28.
  pub make_permit-IsReadAs :
      (name key accounts nonce_text token deadline_text : Bytes) (p : Printed)
      → make_permit x t (name ∷ key ∷ accounts ∷ nonce_text ∷ token ∷ deadline_text ∷ []) ≡ ok p
      → IsReadAs x t key accounts nonce_text token deadline_text p
  unfolding make_permit argument permit_digest domain_sep struct_hash
  make_permit-IsReadAs name key accounts nonce_text token deadline_text p q =
      let (priv_key, key_read, rest₁) = must-answer (x.hex_to_ecdsa key) q in
      let (nonce, nonce_read, rest₂) = must_some-ok (set_string nonce_text) rest₁ in
      let (deadline, deadline_read, rest₃) = must_some-ok (set_string deadline_text) rest₂ in
      let (sig, signed, shown) = must-answer _ rest₃ in
      let is : IsSignature x _ priv_key sig = makes _ _ _ signed in
      rw (← printed-IsSignature at_least_27 is shown) (record {
        priv_key = priv_key;
        nonce = nonce;
        deadline = deadline;
        r = is.r;
        s = is.s;
        v = is.v;
        key_read = key_read;
        nonce_read = nonce_read;
        deadline_read = deadline_read;
        r_read = str_to_bytes-array is.r is.r_array;
        s_read = str_to_bytes-array is.s is.s_array;
        v_read = checked_v-at_least_27 is.v is.v_bit;
        v_bit = is.v_bit;
        signed = signed ∙ ap answer is.parts;
      })
