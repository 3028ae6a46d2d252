-- ===== src/Client/Calls.antt =====
-- How often `Send` and `SendArguments` ask the node.
use accounts_superposition_s.Prelude.{ℕ, Bytes, Bool, true, false, Option, none, ℤ}
use accounts_superposition_s.Exec.Emits.{emits_rules, Emits-lift, Emits-pure, Emits-raise}
use accounts_superposition_s.Exec.Bounded.{
  Bounded, Bounded-silent, Bounded-ask, Bounded-bind, Bounded-skip, Bounded-last, Bounded-on_error,
  Bounded-wrap,
}
use accounts_superposition_s.Types.{Args}
use accounts_superposition_s.World.{Event, CallMsg, SignedTx, Reply, History, Externals, outcome}
use accounts_superposition_s.Client.{call, deliver, send, send_arguments}
use accounts_superposition_s.Client.Effects.{known_fee-Emits}

pub call-Bounded : {A : Type 0} (e : Event) (reply : History → Reply A) → Bounded 1 (call e reply)
unfolding call
call-Bounded e reply = Bounded-last 1 _ _ (Bounded-ask e reply) (λ r. Emits-lift (outcome r))

module _ (x : Externals) where
  deliver-Bounded :
      (dryrun : Bool) (msg : CallMsg) (t : SignedTx) → Bounded 1 (deliver x dryrun msg t)
  unfolding deliver
  deliver-Bounded true msg t =
      Bounded-last 1 _ _ (Bounded-wrap 1 _ _ (call-Bounded _ _)) (λ _. Emits-pure tt)
  deliver-Bounded false msg t = Bounded-wrap 1 _ _ (call-Bounded _ _)

  send-Bounded :
      (router : Bytes) (use_router : Bool) (chain_id : ℤ) (key sender to b : Bytes) (eth : Option ℕ)
      (dryrun : Bool)
      → Bounded 5 (send x router use_router chain_id key sender to b eth dryrun)
  unfolding send
  send-Bounded router use_router chain_id key sender to b eth dryrun =
      Bounded-bind 1 4 _ _
        (Bounded-on_error 1 0 _ _ (call-Bounded _ _) (λ e. Bounded-silent 0 _ (Emits-raise _)))
        λ _. Bounded-bind 1 3 _ _ (Bounded-wrap 1 _ _ (call-Bounded _ _)) λ _.
          Bounded-bind 1 2 _ _ (Bounded-wrap 1 _ _ (call-Bounded _ _)) λ _.
            Bounded-bind 1 1 _ _ (Bounded-wrap 1 _ _ (call-Bounded _ _)) λ _.
              Bounded-skip 1 _ _ (known_fee-Emits _) λ _.
                Bounded-skip 1 _ _ (search emits_rules)
                  λ _. Bounded-last 1 _ _ (deliver-Bounded dryrun _ _) (λ _. Emits-pure _)

  pub send_arguments-Bounded :
      (router : Bytes) (use_router : Bool) (chain_id : ℤ) (key sender to : Bytes) (args : Args)
      (dryrun : Bool)
      → Bounded 5 (send_arguments x router use_router chain_id key sender to args dryrun)
  unfolding send_arguments
  send_arguments-Bounded router use_router chain_id key sender to args dryrun =
      Bounded-skip 5 _ _ (search emits_rules)
        λ b. send-Bounded router use_router chain_id key sender to b none dryrun
