-- ===== src/Client.antt =====
-- lib/client/client.go: estimate, price, sign and send a transaction, or simulate it.
pub mod Effects
pub mod Calls
pub mod Sent
pub mod Progress
pub mod Margin
pub mod Double
use accounts_superposition_s.Prelude.{
  ℕ, ◌+◌, ◌*◌, Bytes, ◌++◌, Bool, if◌then◌else◌, Option, none, some, ℤ,
}
use accounts_superposition_s.Outcome.{note, bytes, ◌◂◌}
use accounts_superposition_s.Exec.{Exec, pure, raise, crash, lift, ask, wrap, on_error, ◌>>=◌, ◌>>◌}
use accounts_superposition_s.Go.{hex_encode, with_margin}
use accounts_superposition_s.Types.{Args}
use accounts_superposition_s.World.{
  Event, estimate_gas, header_by_number, suggest_gas_tip_cap, pending_nonce_at, call_contract,
  send_transaction, CallMsg, DynamicFeeTx, SignedTx, Reply, outcome, Externals, History,
}

-- A call of the node: the event, and its answer as a value or an error.
unfoldable pub call : {A : Type 0} → Event → (History → Reply A) → Exec Event A
call e reply = do r ← ask e reply; lift (outcome r)

-- `new(big.Int).Mul(baseFee, 2)` with a nil base fee is a nil pointer.
unfoldable pub known_fee : Option ℕ → Exec Event ℕ
known_fee none = crash
known_fee (some f) = pure f

-- `if eth == nil { eth = new(big.Int) }`
abbrev pub or_zero : Option ℕ → ℕ
or_zero none = 0
or_zero (some v) = v

module _ (x : Externals) where
  -- `target` and `b`: through the safety router the receiver goes in front of the calldata
  unfoldable pub routed : Bytes → Bool → Bytes → Bytes → Bytes × Bytes
  routed router use_router to b =
      if use_router then (router, x.left_pad_bytes to 32 ++ b) else (to, b)

  -- `if dryrun { … } else { … }`
  unfoldable pub deliver : Bool → CallMsg → SignedTx → Exec Event (Unit {0})
  unfolding call
  deliver dryrun msg signed =
      if dryrun
      then (do wrap "dryrun simulate: " (call (call_contract msg) (x.contract_result msg)); pure tt)
      else wrap "send transaction: " (call (send_transaction signed) (x.send_result signed))

  unfoldable pub send :
      Bytes → Bool → ℤ → Bytes → Bytes → Bytes → Bytes → Option ℕ → Bool → Exec Event (Bytes × ℕ)
  unfolding call known_fee routed deliver
  send router use_router chain_id private_key sender to b_ eth dryrun = do
    let (target, b) = routed router use_router to b_
    let msg : CallMsg = record {
      sender = sender;
      target = target;
      calldata = b;
      value = some (or_zero eth);
    }
    estimated ← on_error (call (estimate_gas msg) (x.estimate msg)) λ e. raise (
        note "estimate gas: to: "
        ◂ bytes (hex_encode to)
        ◂ note ", from: "
        ◂ bytes (hex_encode sender)
        ◂ note ", data "
        ◂ bytes (hex_encode b)
        ◂ note ", "
        ◂ e)
    let gas_limit = with_margin estimated
    base_fee ← wrap "header: " (call header_by_number x.base_fee)
    gas_tip_cap ← wrap "gas tip cap: " (call suggest_gas_tip_cap x.gas_tip_cap)
    nonce ← wrap "nonce: " (call (pending_nonce_at sender) (x.nonce_at sender))
    fee ← known_fee base_fee
    let tx : DynamicFeeTx = record {
      chain_id = chain_id;
      nonce = nonce;
      gas_fee_cap = gas_tip_cap + fee * 2;
      gas_tip_cap = gas_tip_cap;
      gas = gas_limit;
      value = or_zero eth;
      calldata = b;
      target = target;
    }
    signature ← wrap "signed: " (lift (outcome (x.sign_tx tx chain_id private_key)))
    let signed : SignedTx = record { tx = tx; signature = signature }
    deliver dryrun (record msg { value = none }) signed
    pure (x.tx_hash signed, gas_limit)

  unfoldable pub send_arguments :
      Bytes → Bool → ℤ → Bytes → Bytes → Bytes → Args → Bool → Exec Event (Bytes × ℕ)
  unfolding send
  send_arguments router use_router chain_id private_key sender to args dryrun = do
    b ← wrap "serialising borsh: " (lift (outcome (x.serialize_args args)))
    send router use_router chain_id private_key sender to b none dryrun
