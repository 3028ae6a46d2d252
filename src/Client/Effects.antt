-- ===== src/Client/Effects.antt =====
-- What `Send` and `SendArguments` ask of the node.
use accounts_superposition_s.Prelude.{ℕ, ◌≡◌, Bytes, Bool, true, false, Option, none, some, ℤ}
use accounts_superposition_s.Exec.Emits.{Emits, emits_rules, Emits-lift}
use accounts_superposition_s.Exec.Once.{
  Once, Not, once_rules, Once-Emits, Once-ask, Once-bind_head, Once-wrap,
}
use accounts_superposition_s.Types.{Args}
use accounts_superposition_s.World.{
  Event, send_transaction, CallMsg, SignedTx, Reply, History, Externals, outcome,
}
use accounts_superposition_s.Events.{Reads}
use accounts_superposition_s.Client.{call, known_fee, deliver, send, send_arguments}

module _ {P : Event → Type 0} where
  pub call-Emits :
      {A : Type 0} (e : Event) (reply : History → Reply A) → P e → Emits P (call e reply)
  unfolding call
  call-Emits e reply p = search emits_rules

  pub known_fee-Emits : (f : Option ℕ) → Emits P (known_fee f)
  unfolding known_fee
  known_fee-Emits none = search emits_rules
  known_fee-Emits (some f) = search emits_rules

module _ (x : Externals) {P : Event → Type 0} (reads : Reads P) where
  module _ (dryrun : Bool) (sent : dryrun ≡ false → (t : SignedTx) → P (send_transaction t)) where
    deliver-Emits : (msg : CallMsg) (t : SignedTx) → Emits P (deliver x dryrun msg t)
    unfolding deliver
    deliver-Emits msg t = search (emits_rules, call-Emits, reads.simulate, sent)

    send-Emits :
        (router : Bytes) (use_router : Bool) (chain_id : ℤ) (key sender to b : Bytes)
        (eth : Option ℕ)
        → Emits P (send x router use_router chain_id key sender to b eth dryrun)
    unfolding send
    send-Emits router use_router chain_id key sender to b eth =
        search
          (
            emits_rules, call-Emits, known_fee-Emits, deliver-Emits, reads.estimate, reads.header,
            reads.tip, reads.nonce,
          )
          depth 20

    -- `SendArguments` reads, and sends at most if it is no dry run.
    pub send_arguments-Emits_sent :
        (router : Bytes) (use_router : Bool) (chain_id : ℤ) (key sender to : Bytes) (args : Args)
        → Emits P (send_arguments x router use_router chain_id key sender to args dryrun)
    unfolding send_arguments
    send_arguments-Emits_sent router use_router chain_id key sender to args =
        search (emits_rules, send-Emits) depth 10

  -- A dry run of `SendArguments` only reads.
  pub send_arguments-Emits :
      (router : Bytes) (use_router : Bool) (chain_id : ℤ) (key sender to : Bytes) (args : Args)
      (dryrun : Bool)
      → dryrun ≡ true
      → Emits P (send_arguments x router use_router chain_id key sender to args dryrun)
  send_arguments-Emits router use_router chain_id key sender to args dryrun h =
      send_arguments-Emits_sent dryrun (λ e. absurd (cc (e, h))) router use_router chain_id key
        sender to args

module _ {p : Event → Bool} where
  call-Once : {A : Type 0} (e : Event) (reply : History → Reply A) → Once p (call e reply)
  unfolding call
  call-Once e reply = Once-bind_head _ _ (Once-ask e reply) (λ r. Emits-lift (outcome r))

module _ (x : Externals) {p : Event → Bool} (reads : Reads (Not p)) where
  deliver-Once : (dryrun : Bool) (msg : CallMsg) (t : SignedTx) → Once p (deliver x dryrun msg t)
  deliver-Once true msg t = Once-Emits _ (deliver-Emits x reads true (λ e. absurd (cc (e))) msg t)
  deliver-Once false msg t = unfold deliver in Once-wrap _ _ (call-Once _ _)

  send-Once :
      (router : Bytes) (use_router : Bool) (chain_id : ℤ) (key sender to b : Bytes) (eth : Option ℕ)
      (dryrun : Bool)
      → Once p (send x router use_router chain_id key sender to b eth dryrun)
  unfolding send
  send-Once router use_router chain_id key sender to b eth dryrun =
      search
        (
          once_rules, emits_rules, deliver-Once, call-Emits, known_fee-Emits, reads.estimate,
          reads.header, reads.tip, reads.nonce,
        )
        depth 20

  -- `SendArguments` raises one event of the kind at most, dry run or not.
  pub send_arguments-Once :
      (router : Bytes) (use_router : Bool) (chain_id : ℤ) (key sender to : Bytes) (args : Args)
      (dryrun : Bool)
      → Once p (send_arguments x router use_router chain_id key sender to args dryrun)
  unfolding send_arguments
  send_arguments-Once router use_router chain_id key sender to args dryrun =
      search (once_rules, emits_rules, send-Once) depth 10
