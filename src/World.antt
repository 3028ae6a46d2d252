-- ===== src/World.antt =====
-- The outside: libraries, the signer, the Ethereum node, the database and the alarm webhook. What
-- the program asks is an event; the answers are parameters, and may depend on the history.
use accounts_superposition_s.Prelude.{ℕ, Bytes, List, Option, Bool, ℤ, String}
use accounts_superposition_s.Outcome.{bytes, Outcome, ok, err}
use accounts_superposition_s.Types.{SolveArgs, SolveV2Args, SolveV3Args, Args, FreshBackwards}

-- A call of another package that returns a value or an error.
pub data Reply (A : Type 0) : Type 0 where
  answer : A → Reply A
  failed : Bytes → Reply A

abbrev pub outcome : {A : Type 0} → Reply A → Outcome A
outcome (answer a) = ok a
outcome (failed e) = err (bytes e)

-- ethereum.CallMsg; the number of wei is never negative
pub record CallMsg : Type 0 where
  pub sender : Bytes
  pub target : Bytes
  pub calldata : Bytes
  pub value : Option ℕ

-- ethTypes.DynamicFeeTx
pub record DynamicFeeTx : Type 0 where
  pub chain_id : ℤ
  pub nonce : ℕ
  pub gas_fee_cap : ℕ
  pub gas_tip_cap : ℕ
  pub gas : ℕ
  pub value : ℕ
  pub calldata : Bytes
  pub target : Bytes

-- A transaction with the signature that `SignTx` put on it.
pub record SignedTx : Type 0 where
  pub tx : DynamicFeeTx
  pub signature : Bytes

-- What `exec.Command(prog, arg).Output()` gives: the output, and an error's text.
pub record Output : Type 0 where
  pub out : Bytes
  pub failure : Option Bytes

-- graph/model/models_gen.go, `Statistics`; the averages are opaque texts.
pub record Statistics : Type 0 where
  pub action : Bytes
  pub avg_gas_limit_24_hours : Bytes
  pub avg_gas_limit_week : Bytes
  pub avg_gas_limit_all_time : Bytes
  pub tx_24_hours : ℤ
  pub tx_week : ℤ
  pub tx_all_time : ℤ

pub data Event : Type 0 where
  -- the ed25519 signer: program, argument
  run_signer : Bytes → Bytes → Event
  -- the node
  estimate_gas : CallMsg → Event
  header_by_number : Event
  suggest_gas_tip_cap : Event
  pending_nonce_at : Bytes → Event
  call_contract : CallMsg → Event
  send_transaction : SignedTx → Event
  code_at : Bytes → Event
  -- the database
  get_private_key : Event
  insert_secret : Bytes → Bytes → Event
  insert_nonce_secret : Bytes → Bytes → ℤ → Event
  insert_transaction : Bytes → Bytes → ℕ → String → Event
  count_created : Bytes → Event
  count_secrets : Bytes → Bytes → Event
  select_statistics : Event
  -- the alarm webhook, and the source of randomness
  http_post : Bytes → ℕ → Bytes → Event
  rand_read : ℕ → Event

abbrev pub History : Type 0
History = List Event

-- What `rows.Next` and `rows.Scan` give one after the other, and the error that `rows.Err` would
-- tell if the iteration broke off.
pub record Rows : Type 0 where
  pub scans : List (Reply Statistics)
  pub broken : Option Bytes

pub record Externals : Type 0 where
  -- crypto/sha512, near/borsh-go, superposition-assets
  pub sha512 : Bytes → Bytes
  pub serialize_solve_args : SolveArgs → Reply Bytes
  pub serialize_solve_v2_args : SolveV2Args → Reply Bytes
  pub serialize_solve_v3_args : SolveV3Args → Reply Bytes
  pub serialize_args : Args → Reply Bytes
  pub asset_usdc : ℕ
  -- go-ethereum: addresses, hashes, signatures, transactions, the ABI of lib/ninelives/abi.json
  pub is_hex_address : Bytes → Bool
  pub hex_to_address : Bytes → Bytes
  pub address_string : Bytes → Bytes
  pub bytes_to_address : Bytes → Bytes
  pub left_pad_bytes : Bytes → ℕ → Bytes
  pub keccak256 : Bytes → Bytes
  pub sig_to_pub : Bytes → Bytes → Reply Bytes
  pub pubkey_to_address : Bytes → Bytes
  pub hex_to_ecdsa : Bytes → Reply Bytes
  pub public_key : Bytes → Bytes
  pub sign_tx : DynamicFeeTx → ℤ → Bytes → Reply Bytes
  pub tx_hash : SignedTx → Bytes
  pub hash_hex : Bytes → Bytes
  pub pack_mint : String → Bytes → ℕ → Bytes → Bytes → Reply Bytes
  pub pack_addresses : String → List Bytes → Bytes → Reply Bytes
  -- fmt's print of a structure
  pub show_fresh : FreshBackwards → Bytes
  -- the answers to events
  pub signer_output : Bytes → Bytes → History → Output
  pub estimate : CallMsg → History → Reply ℕ
  pub base_fee : History → Reply (Option ℕ)
  pub gas_tip_cap : History → Reply ℕ
  pub nonce_at : Bytes → History → Reply ℕ
  pub contract_result : CallMsg → History → Reply Bytes
  pub send_result : SignedTx → History → Reply (Unit {0})
  pub code : Bytes → History → Reply Bytes
  pub private_key_row : History → Reply (Option Bytes)
  pub exec_result : Event → History → Reply (Unit {0})
  pub count_row : Event → History → Reply ℕ
  pub statistics_rows : History → Reply Rows
  pub post_result : Event → History → Bool
  pub random_bytes : ℕ → History → Reply Bytes
