-- ===== src/Client/Sent.antt =====
-- The transaction that `Send` puts on the wire.
use accounts_superposition_s.Prelude.{
  ℕ, ◌+◌, ◌*◌, ◌≡◌, refl, sym, ap, Bytes, ◌∷◌, ◌++◌, Bool, true, false, Option, none, some, ℤ,
  arith,
}
use accounts_superposition_s.Outcome.{ok}
use accounts_superposition_s.Exec.{pure, crash, ask, lift, ◌>>=◌}
use accounts_superposition_s.Exec.Inversion.{
  Returned, pure-Returned, lift-Returned, bind-Returned, wrap-Returned, on_error-Returned,
  raise-never,
}
use accounts_superposition_s.Go.{with_margin}
use accounts_superposition_s.World.{
  Event, estimate_gas, header_by_number, suggest_gas_tip_cap, pending_nonce_at, send_transaction,
  CallMsg, DynamicFeeTx, SignedTx, Reply, answer, failed, outcome, Externals, History,
}
use accounts_superposition_s.Client.{call, known_fee, or_zero, routed, deliver, send}

pub outcome-eq-ok : {A : Type 0} (r : Reply A) {a : A} → outcome r ≡ ok a → r ≡ answer a
outcome-eq-ok (answer b) p = ground arith
outcome-eq-ok (failed e) p = absurd (cc)

pub call-Returned :
    {A : Type 0} (e : Event) (reply : History → Reply A) {a : A} {h h' : History}
    → Returned (call e reply) h a h'
    → (reply h ≡ answer a) × (h' ≡ e ∷ h)
unfolding call ask lift ◌>>=◌
call-Returned e reply {h} p = (outcome-eq-ok (reply h) p.value, sym p.history)

known_fee-Returned :
    (o : Option ℕ) {f : ℕ} {h h' : History}
    → Returned (known_fee o) h f h'
    → (o ≡ some f) × (h ≡ h')
unfolding known_fee pure crash
known_fee-Returned none p = absurd (cc (p.value))
known_fee-Returned (some g) p = (ground (arith, p.value), p.history)

abbrev pub asked : Bytes → Bytes → Bytes → ℕ → CallMsg
asked sender target b value = record {
  sender = sender;
  target = target;
  calldata = b;
  value = some value;
}

-- Where a message for `to` goes, and what goes there.
abbrev pub receiver : Bytes → Bool → Bytes → Bytes
receiver router true to = router
receiver router false to = to

abbrev pub wrapped : Externals → Bool → Bytes → Bytes → Bytes
wrapped x true to b = x.left_pad_bytes to 32 ++ b
wrapped x false to b = b

-- What the node was asked before the transaction, in order.
abbrev pub priced : CallMsg → History → History
priced msg h =
    pending_nonce_at msg.sender ∷ suggest_gas_tip_cap ∷ header_by_number ∷ estimate_gas msg ∷ h

-- What a successful `Send` has done: the node's answers, and the one transaction, built from them.
pub record IsSent (x : Externals) (chain_id : ℤ) (key : Bytes) (msg : CallMsg) (value : ℕ)
    (h : History) (hash : Bytes) (gas : ℕ) (h' : History) : Type 0 where
  pub signed : SignedTx
  pub estimated : ℕ
  pub fee : ℕ
  pub estimate : x.estimate msg h ≡ answer estimated
  pub base_fee : x.base_fee (estimate_gas msg ∷ h) ≡ answer (some fee)
  pub tip : x.gas_tip_cap (header_by_number ∷ estimate_gas msg ∷ h) ≡ answer signed.tx.gas_tip_cap
  pub nonce :
      x.nonce_at msg.sender (suggest_gas_tip_cap ∷ header_by_number ∷ estimate_gas msg ∷ h)
      ≡ answer signed.tx.nonce
  pub fee_cap : signed.tx.gas_fee_cap ≡ signed.tx.gas_tip_cap + fee * 2
  pub chain : signed.tx.chain_id ≡ chain_id
  pub gas_limit : signed.tx.gas ≡ with_margin estimated
  pub target : signed.tx.target ≡ msg.target
  pub calldata : signed.tx.calldata ≡ msg.calldata
  pub amount : signed.tx.value ≡ value
  pub signature : x.sign_tx signed.tx chain_id key ≡ answer signed.signature
  pub accepted : x.send_result signed (priced msg h) ≡ answer tt
  pub history : h' ≡ send_transaction signed ∷ priced msg h
  pub hash_returned : hash ≡ x.tx_hash signed
  pub gas_returned : gas ≡ signed.tx.gas

-- `baseTx`
abbrev base_tx : ℤ → CallMsg → ℕ → ℕ → ℕ → ℕ → ℕ → DynamicFeeTx
base_tx chain_id msg value estimated fee tip nonce = record {
  chain_id = chain_id;
  nonce = nonce;
  gas_fee_cap = tip + fee * 2;
  gas_tip_cap = tip;
  gas = with_margin estimated;
  value = value;
  calldata = msg.calldata;
  target = msg.target;
}

module _ (x : Externals) (chain_id : ℤ) (key : Bytes) (msg : CallMsg) (value : ℕ)
    (h : History) where
  IsSent-intro :
      {estimated fee tip nonce gas : ℕ} {base_fee : Option ℕ} {signature hash : Bytes}
      {h₁ h₂ h₃ h₄ h₅ h₆ h₇ h' : History}
      → x.estimate msg h ≡ answer estimated
      → h₁ ≡ estimate_gas msg ∷ h
      → x.base_fee h₁ ≡ answer base_fee
      → h₂ ≡ header_by_number ∷ h₁
      → x.gas_tip_cap h₂ ≡ answer tip
      → h₃ ≡ suggest_gas_tip_cap ∷ h₂
      → x.nonce_at msg.sender h₃ ≡ answer nonce
      → h₄ ≡ pending_nonce_at msg.sender ∷ h₃
      → base_fee ≡ some fee
      → h₄ ≡ h₅
      → outcome (x.sign_tx (base_tx chain_id msg value estimated fee tip nonce) chain_id key)
        ≡ ok signature
      → h₅ ≡ h₆
      → x.send_result
          (record {
            tx = base_tx chain_id msg value estimated fee tip nonce;
            signature = signature;
          })
          h₆
        ≡ answer tt
      → h₇
        ≡ send_transaction (record {
          tx = base_tx chain_id msg value estimated fee tip nonce;
          signature = signature;
        })
          ∷ h₆
      → ◌≡◌ {A = Bytes × ℕ}
          (
            x.tx_hash (record {
              tx = base_tx chain_id msg value estimated fee tip nonce;
              signature = signature;
            }),
            with_margin estimated,
          )
          (hash, gas)
      → h₇ ≡ h'
      → IsSent x chain_id key msg value h hash gas h'
  IsSent-intro {estimated} {fee} {tip} {nonce} {signature} v₁ e₁ v₂ e₂ v₃ e₃ v₄ e₄ v₅ e₅ v₆ e₆ v₇ e₇
        v₈ e₈ =
      record {
        signed = record {
          tx = base_tx chain_id msg value estimated fee tip nonce;
          signature = signature;
        };
        estimated = estimated;
        fee = fee;
        estimate = v₁;
        base_fee = cc (v₂, e₁, v₅);
        tip = cc (v₃, e₂, e₁);
        nonce = cc (v₄, e₃, e₂, e₁);
        fee_cap = refl;
        chain = refl;
        gas_limit = refl;
        target = refl;
        calldata = refl;
        amount = refl;
        signature = outcome-eq-ok _ v₆;
        accepted = cc;
        history = cc;
        hash_returned = sym (ap (λ (p : Bytes × ℕ). p.0) v₈);
        gas_returned = sym (ap (λ (p : Bytes × ℕ). p.1) v₈);
      }

module _ (x : Externals) where
  deliver-Returned :
      (msg : CallMsg) (signed : SignedTx) {u : Unit {0}} {h h' : History}
      → Returned (deliver x false msg signed) h u h'
      → (x.send_result signed h ≡ answer tt) × (h' ≡ send_transaction signed ∷ h)
  deliver-Returned msg signed {u} p =
      call-Returned _ (x.send_result signed) {a = u}
        (wrap-Returned "send transaction: " _ (unfold deliver in p))

  routed-IsSent :
      (router : Bytes) (use_router : Bool) (chain_id : ℤ) (key sender to b : Bytes) (eth : Option ℕ)
      (hash : Bytes) (gas : ℕ) (h h' : History)
      → Returned (send x router use_router chain_id key sender to b eth false) h (hash, gas) h'
      → IsSent x chain_id key
          (asked sender
            (routed x router use_router to b).0
            (routed x router use_router to b).1
            (or_zero eth))
          (or_zero eth)
          h
          hash
          gas
          h'
  unfolding send
  routed-IsSent router use_router chain_id key sender to b eth hash gas h h' p =
      let (estimated, h₁, p₁, rest₁) = bind-Returned p in
      let (base_fee, h₂, p₂, rest₂) = bind-Returned rest₁ in
      let (tip, h₃, p₃, rest₃) = bind-Returned rest₂ in
      let (nonce, h₄, p₄, rest₄) = bind-Returned rest₃ in
      let (fee, h₅, p₅, rest₅) = bind-Returned rest₄ in
      let (signature, h₆, p₆, rest₆) = bind-Returned rest₅ in
      let (u, h₇, p₇, rest₇) = bind-Returned rest₆ in
      let (v₁, e₁) = call-Returned _ _ (on_error-Returned _ _ (λ e. raise-never _) p₁) in
      let (v₂, e₂) = call-Returned _ _ (wrap-Returned _ _ p₂) in
      let (v₃, e₃) = call-Returned _ _ (wrap-Returned _ _ p₃) in
      let (v₄, e₄) = call-Returned _ _ (wrap-Returned _ _ p₄) in
      let (v₅, e₅) = known_fee-Returned _ p₅ in
      let (v₆, e₆) = lift-Returned (wrap-Returned _ _ p₆) in
      let (v₇, e₇) =
        deliver-Returned
          (record (asked sender (routed x router use_router to b).0
            (routed x router use_router to b).1 (or_zero eth)) { value = none })
          _ p₇ in
      let (v₈, e₈) = pure-Returned rest₇ in
      IsSent-intro x chain_id key
        (asked sender (routed x router use_router to b).0 (routed x router use_router to b).1
          (or_zero eth))
        (or_zero eth) h v₁ e₁ v₂ e₂ v₃ e₃ v₄ e₄ v₅ e₅ v₆ e₆ v₇ e₇ v₈ e₈

  -- A call of `Send` that is no dry run and returns a hash has asked the node for the gas, the
  -- header, the tip and the nonce, in this order, and has then sent one transaction, which the node
  -- accepted. That transaction carries the node's nonce, the estimated gas with its margin, and a fee
  -- cap of the tip and twice the base fee. If the router is used, it goes to the router with the
  -- receiver, padded to 32 bytes, in front of the calldata, and else to the receiver with the
  -- calldata alone. The hash and the gas limit returned are those of that transaction.
  pub send-IsSent :
      (router : Bytes) (use_router : Bool) (chain_id : ℤ) (key sender to b : Bytes) (eth : Option ℕ)
      (hash : Bytes) (gas : ℕ) (h h' : History)
      → Returned (send x router use_router chain_id key sender to b eth false) h (hash, gas) h'
      → IsSent x chain_id key
          (asked sender (receiver router use_router to) (wrapped x use_router to b) (or_zero eth))
          (or_zero eth)
          h
          hash
          gas
          h'
  unfolding routed
  send-IsSent router true chain_id key sender to b eth hash gas h h' p =
      routed-IsSent router true chain_id key sender to b eth hash gas h h' p
  send-IsSent router false chain_id key sender to b eth hash gas h h' p =
      routed-IsSent router false chain_id key sender to b eth hash gas h h' p
