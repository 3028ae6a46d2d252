-- ===== src/Tools/MakePermit.antt =====
-- tools/make-permit/main.go: an owner's signature of a permit of the token.
pub mod Decoded
use accounts_superposition_s.Prelude.{
  ℕ, ◌+◌, ◌%◌, ◌^◌, Bytes, codes, List, [], ◌∷◌, ltb, if◌then◌else◌, ℤ, pos, nat_abs,
}
use accounts_superposition_s.Outcome.{Outcome, ok, ◌>>=◌}
use accounts_superposition_s.Go.{set_string, big_bytes}
use accounts_superposition_s.World.{outcome, Externals}
use accounts_superposition_s.Tools.Command.{argument, must, must_some, Tooling, Printed, printed}

abbrev pub token_name : Bytes
token_name = codes "Bridged USDC (Stargate)"

abbrev pub token_version : Bytes
token_version = codes "2"

abbrev pub chain_id : ℤ
chain_id = pos 55244

-- `if v < 27 { v += 27 }`, of a byte
abbrev pub at_least_27 : ℕ → ℕ
at_least_27 v = if ltb v 27 then (v + 27) % 2 ^ 8 else v

module _ (x : Externals) (t : Tooling) where
  unfoldable pub domain_sep : Bytes → Bytes
  domain_sep token_addr = t.keccak256_all (
      t.keccak256_all (
        codes "EIP712Domain(string name,string version,uint256 chainId,address verifyingContract)"
        ∷ [])
      ∷ t.keccak256_all (token_name ∷ [])
      ∷ t.keccak256_all (token_version ∷ [])
      ∷ t.big_to_hash chain_id
      ∷ x.left_pad_bytes token_addr 32
      ∷ [])

  abbrev pub permit_hash : Bytes
  permit_hash = t.keccak256_all (
      codes "Permit(address owner,address spender,uint256 value,uint256 nonce,uint256 deadline)"
      ∷ [])

  unfoldable pub struct_hash : Bytes → Bytes → ℤ → ℤ → Bytes
  struct_hash owner_addr accounts_addr nonce deadline = t.keccak256_all (
      permit_hash
      ∷ x.left_pad_bytes owner_addr 32
      ∷ x.left_pad_bytes accounts_addr 32
      ∷ t.max_hash
      ∷ x.left_pad_bytes (big_bytes (nat_abs nonce)) 32
      ∷ x.left_pad_bytes (big_bytes (nat_abs deadline)) 32
      ∷ [])

  -- what is signed, behind the two bytes of the header
  unfoldable pub permit_digest : Bytes → Bytes → Bytes → ℤ → ℤ → Bytes
  unfolding domain_sep struct_hash
  permit_digest token_addr owner_addr accounts_addr nonce deadline = t.keccak256_hash (
      (25 ∷ 1 ∷ [])
      ∷ domain_sep token_addr
      ∷ struct_hash owner_addr accounts_addr nonce deadline
      ∷ [])

  unfoldable pub make_permit : List Bytes → Outcome Printed
  unfolding argument printed permit_digest
  make_permit args = do
    key ← argument 1 args
    priv_key ← must (outcome (x.hex_to_ecdsa key))
    accounts ← argument 2 args
    nonce_text ← argument 3 args
    nonce ← must_some (set_string nonce_text)
    token ← argument 4 args
    deadline_text ← argument 5 args
    deadline ← must_some (set_string deadline_text)
    let owner_addr = x.pubkey_to_address (x.public_key priv_key)
    let d =
        permit_digest (x.hex_to_address token) owner_addr (x.hex_to_address accounts) nonce deadline
    sig ← must (outcome (t.sign d priv_key))
    printed at_least_27 sig
