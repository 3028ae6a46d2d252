-- ===== src/Client/Progress.antt =====
-- A transaction goes through when the outside answers.
use accounts_superposition_s.Prelude.{
  ℕ, ◌≡◌, refl, ap, Bytes, String, Bool, true, false, Option, none, some, ℤ,
}
use accounts_superposition_s.Outcome.{ok}
use accounts_superposition_s.Exec.{ask, lift, wrap, ◌>>=◌}
use accounts_superposition_s.Exec.Progress.{
  IsOk, Returns, returns_rules, Returns-bind, Returns-bind_at, Returns-pure, Returns-lift,
  Returns-wrap, Returns-on_error,
}
use accounts_superposition_s.Types.{Args}
use accounts_superposition_s.World.{
  Event, header_by_number, CallMsg, SignedTx, Reply, answer, outcome, Externals, History,
}
use accounts_superposition_s.Cooperation.{Answers, IsCooperative}
use accounts_superposition_s.Client.{call, known_fee, deliver, send, send_arguments}

pub Answers-IsOk : {A : Type 0} {r : Reply A} → Answers r → IsOk (outcome r)
Answers-IsOk (a, e) = (a, ap outcome e)

pub call-Returns :
    {A : Type 0} (e : Event) (reply : History → Reply A) (h : History)
    → Answers (reply h)
    → Returns (call e reply) h
unfolding call ask lift ◌>>=◌
call-Returns e reply h (a, p) = record { value = a; returned = ap outcome p }

wrapped_call :
    {A : Type 0} (s : String) (e : Event) (reply : History → Reply A) (h : History) (a : A)
    → reply h ≡ answer a
    → (wrap s (call e reply) h).0 ≡ ok a
unfolding call ask lift ◌>>=◌ wrap
wrapped_call s e reply h a p = rw p refl

module _ (x : Externals) (all : IsCooperative x) where
  deliver-Returns :
      (dryrun : Bool) (m : CallMsg) (t : SignedTx) (h : History) → Returns (deliver x dryrun m t) h
  unfolding deliver
  deliver-Returns true m t h = search (returns_rules, call-Returns, all.simulate)
  deliver-Returns false m t h = search (returns_rules, call-Returns, all.accept)

  known_fee-Returns : (f : ℕ) (h : History) → Returns (known_fee (some f)) h
  unfolding known_fee
  known_fee-Returns f h = Returns-pure f h

  pub send-Returns :
      (router : Bytes) (use_router : Bool) (chain_id : ℤ) (key sender to b : Bytes) (eth : Option ℕ)
      (dryrun : Bool) (h : History) (s : Bytes)
      → x.hex_to_ecdsa s ≡ answer key
      → Returns (send x router use_router chain_id key sender to b eth dryrun) h
  unfolding send
  send-Returns router use_router chain_id key sender to b eth dryrun h s known_key =
      Returns-bind _ _ h (Returns-on_error _ _ h (call-Returns _ _ h (all.estimate _ h))) λ g h₁.
        let (fee, known) = all.base_fee h₁ in
        Returns-bind_at _ _ h₁ (some fee)
          (wrapped_call "header: " header_by_number x.base_fee h₁ (some fee) known)
          (Returns-bind _ _ _ (Returns-wrap _ _ _ (call-Returns _ _ _ (all.tip _))) λ tip h₂.
            Returns-bind _ _ _ (Returns-wrap _ _ _ (call-Returns _ _ _ (all.nonce _ _))) λ nonce h₃.
              Returns-bind _ _ _ (known_fee-Returns fee h₃) λ fee' h₄.
                Returns-bind _ _ _
                  (Returns-wrap _ _ _ (Returns-lift _ _ (Answers-IsOk (all.sign _ s _ known_key))))
                  λ signature h₅.
                    Returns-bind _ _ _ (deliver-Returns _ _ _ h₅) λ u h₆. Returns-pure _ _)

  pub send_arguments-Returns :
      (router : Bytes) (use_router : Bool) (chain_id : ℤ) (key sender to : Bytes) (args : Args)
      (dryrun : Bool) (h : History) (s : Bytes)
      → x.hex_to_ecdsa s ≡ answer key
      → Returns (send_arguments x router use_router chain_id key sender to args dryrun) h
  unfolding send_arguments
  send_arguments-Returns router use_router chain_id key sender to args dryrun h s known_key =
      Returns-bind _ _ h (Returns-wrap _ _ h (Returns-lift _ h (Answers-IsOk (all.args args))))
        λ b h₁. send-Returns router use_router chain_id key sender to b none dryrun h₁ s known_key
