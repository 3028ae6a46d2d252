-- ===== src/Cooperation.antt =====
-- An outside that answers: the libraries do not fail, and the node, the signer and the database
-- are there.
use accounts_superposition_s.Prelude.{ℕ, ◌≡◌, Bytes, none, some, length}
use accounts_superposition_s.Go.{hex_encode, to_lower}
use accounts_superposition_s.Types.{SolveArgs, SolveV2Args, Args}
use accounts_superposition_s.World.{
  insert_secret, Reply, answer, CallMsg, DynamicFeeTx, SignedTx, History, Externals,
}

abbrev pub Answers : {A : Type 0} → Reply A → Type 0
Answers {A} r = (a : A) × (r ≡ answer a)

pub record IsCooperative (x : Externals) : Type 0 where
  pub solve_args : (a : SolveArgs) → Answers (x.serialize_solve_args a)
  pub solve_v2_args : (a : SolveV2Args) → Answers (x.serialize_solve_v2_args a)
  pub args : (a : Args) → Answers (x.serialize_args a)
  -- the method is in the ABI
  pub mint :
      (outcome : Bytes) (value : ℕ) (referrer recipient : Bytes)
      → Answers (x.pack_mint "mint8A059B6E" outcome value referrer recipient)
  -- with a key that was read, and for the chain of the transaction
  pub sign :
      (tx : DynamicFeeTx) (s key : Bytes)
      → x.hex_to_ecdsa s ≡ answer key
      → Answers (x.sign_tx tx tx.chain_id key)
  pub signer : (prog d : Bytes) (h : History) → (x.signer_output prog d h).failure ≡ none
  -- the database has a key, which is one
  pub row :
      (h : History)
      → (s : Bytes) × (x.private_key_row h ≡ answer (some s)) × Answers (x.hex_to_ecdsa s)
  pub estimate : (m : CallMsg) (h : History) → Answers (x.estimate m h)
  pub base_fee : (h : History) → (f : ℕ) × (x.base_fee h ≡ answer (some f))
  pub tip : (h : History) → Answers (x.gas_tip_cap h)
  pub nonce : (a : Bytes) (h : History) → Answers (x.nonce_at a h)
  pub simulate : (m : CallMsg) (h : History) → Answers (x.contract_result m h)
  pub accept : (t : SignedTx) (h : History) → Answers (x.send_result t h)
  pub random : (h : History) → (b : Bytes) × (x.random_bytes 32 h ≡ answer b) × (length b ≡ 32)
  -- a printed address and 32 bytes in hex are stored
  pub stores :
      (address secret : Bytes) (h : History)
      → length secret ≡ 32
      → Answers (
          x.exec_result (insert_secret (to_lower (x.address_string address)) (hex_encode secret)) h)
