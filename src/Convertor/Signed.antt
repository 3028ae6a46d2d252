-- ===== src/Convertor/Signed.antt =====
-- What the convertor has signed when it returns a message.
use accounts_superposition_s.Prelude.{
  ℕ, ◌≡◌, refl, sym, ap, Bytes, List, [], ◌∷◌, Option, none, some, arith,
}
use accounts_superposition_s.Outcome.{ok}
use accounts_superposition_s.Exec.{pure, raise, ask, ◌>>=◌}
use accounts_superposition_s.Exec.Inversion.{
  Returned, pure-Returned, lift-Returned, bind-Returned, wrap-Returned,
}
use accounts_superposition_s.Go.{copy, hex_encode}
use accounts_superposition_s.Types.{SolveArgs, SolveArgsSigArgs, SolveV2Args, Args, zeros, Variant}
use accounts_superposition_s.Model
use accounts_superposition_s.World.{run_signer, Reply, answer, failed, outcome, History, Externals}
use accounts_superposition_s.Ninelives.{new_mint}
use accounts_superposition_s.Convertor.Decode.{str_to_bytes, str_to_addr, amount_bytes, ms_ts_left}
use accounts_superposition_s.Convertor.Permits.{
  PermitsRead, permit_list-PermitsRead, permit_graph-PermitRead,
}
use accounts_superposition_s.Convertor.Sign.{signature_of, sign_digest, create_solve_v2}
use accounts_superposition_s.Convertor.Request.{
  permit_list, sign_solve, create_solve_args_sig_args, create_solve_args_sig_args_mint,
  create_solve_args_sig_args_mint_graph,
}

pub answered : {A : Type 0} (r : Reply A) {a : A} → outcome r ≡ ok a → r ≡ answer a
answered (answer b) p = ground arith
answered (failed e) p = absurd (cc)

signature_of-Returned :
    (out : Bytes) (failure : Option Bytes) {sig : Bytes} {h h' : History}
    → Returned (signature_of out failure) h sig h'
    → (failure ≡ none) × (sig ≡ copy (zeros 64) out) × (h ≡ h')
unfolding signature_of pure raise
signature_of-Returned out none p = (refl, ground (arith, p.value), p.history)
signature_of-Returned out (some e) p = absurd (cc (p.value))

-- The signer was asked once, for the digest of `encoded`, did not fail, and `sig` is its output cut
-- or filled up to 64 bytes.
pub record IsSigned (x : Externals) (prog encoded : Bytes) (h : History) (sig : Bytes)
    (h' : History) : Type 0 where
  pub succeeded : (x.signer_output prog (hex_encode (x.sha512 encoded)) h).failure ≡ none
  pub signature : sig ≡ copy (zeros 64) (x.signer_output prog (hex_encode (x.sha512 encoded)) h).out
  pub history : h' ≡ run_signer prog (hex_encode (x.sha512 encoded)) ∷ h

IsSigned-move :
    (x : Externals) (prog encoded : Bytes) {h h₁ h₂ h' : History} {sig sig' : Bytes}
    → h ≡ h₁
    → h₂ ≡ h'
    → sig ≡ sig'
    → IsSigned x prog encoded h₁ sig h₂
    → IsSigned x prog encoded h sig' h'
IsSigned-move x prog encoded p q r s = rw (p, ← q, ← r) s

module _ (x : Externals) where
  sign_digest-Returned :
      (prog encoded : Bytes) {sig : Bytes} {h h' : History}
      → Returned (sign_digest x prog encoded) h sig h'
      → IsSigned x prog encoded h sig h'
  unfolding sign_digest ask ◌>>=◌
  sign_digest-Returned prog encoded {h} p =
      let o = x.signer_output prog (hex_encode (x.sha512 encoded)) h in
      let (none_failed, sig, e) =
        signature_of-Returned o.out o.failure
          {h = run_signer prog (hex_encode (x.sha512 encoded)) ∷ h}
          (record { value = p.value; history = p.history }) in
      record { succeeded = none_failed; signature = sig; history = sym e }

  -- What a `SolveV2` message returned by `CreateSolveV2` is.
  pub record IsSolveV2 (prog : Bytes) (args : SolveV2Args) (h : History) (a : Args) (h' : History)
      : Type 0 where
    pub encoded : Bytes
    pub serialised : x.serialize_solve_v2_args args ≡ answer encoded
    pub variant : a.enum ≡ Variant.solve_v2
    pub message : a.solve_v2.args ≡ args
    pub signed : IsSigned x prog encoded h a.solve_v2.sig h'

  -- When `CreateSolveV2` returns a message, it is of the `SolveV2` variant and holds exactly the
  -- operations and both owners that were given, and its signature is the signer's output for the
  -- digest of the serialisation of these.
  pub create_solve_v2-IsSolveV2 :
      (prog : Bytes) (args : List SolveArgs) (p t : Bytes) (h h' : History) (a : Args)
      → Returned (create_solve_v2 x prog args p t) h a h'
      → IsSolveV2 prog (record { args = args; permit_owner = p; transfer_owner = t }) h a h'
  unfolding create_solve_v2
  create_solve_v2-IsSolveV2 prog args p t h h' a r =
      let (encoded, h₁, p₁, rest₁) = bind-Returned r in
      let (sig, h₂, p₂, rest₂) = bind-Returned rest₁ in
      let (v, e) = lift-Returned (wrap-Returned _ _ p₁) in
      let signed = sign_digest-Returned prog encoded p₂ in
      let (value, e') = pure-Returned rest₂ in
      record {
        encoded = encoded;
        serialised = answered _ v;
        variant = sym (ap (λ (a : Args). a.enum) value);
        message = sym (ap (λ (a : Args). a.solve_v2.args) value);
        signed = IsSigned-move x prog encoded e e' (ap (λ (a : Args). a.solve_v2.sig) value) signed;
      }

  sign_solve-Returned :
      (prog : Bytes) (args : SolveArgs) {m : SolveArgsSigArgs} {h h' : History}
      → Returned (sign_solve x prog args) h m h'
      → m.args ≡ args
  unfolding sign_solve
  sign_solve-Returned prog args p =
      let (encoded, h₁, p₁, rest₁) = bind-Returned p in
      let (sig, h₂, p₂, rest₂) = bind-Returned rest₁ in
      sym (ap (λ (m : SolveArgsSigArgs). m.args) (pure-Returned rest₂).0)

  -- What the operation made from a mint's texts is.
  pub record IsMint (asset : ℕ) (market out amount referrer recipient : Bytes)
      (permit : Option Model.Permit) (ms_ts : Bytes) (args : SolveArgs) : Type 0 where
    pub outcome_bytes : Bytes
    pub to_take : Bytes
    pub referrer_addr : Bytes
    pub outcome_decoded : str_to_bytes 8 out ≡ ok outcome_bytes
    pub amount_decoded : amount_bytes amount ≡ ok to_take
    pub market_decoded : str_to_addr market ≡ ok args.target
    pub referrer_decoded : str_to_addr referrer ≡ ok referrer_addr
    pub ms_ts_decoded : ms_ts_left ms_ts ≡ ok args.ms_ts
    pub calldata : new_mint x outcome_bytes to_take referrer_addr recipient ≡ ok args.cd
    pub taken :
        args.from_args ≡ record { asset = asset; to_take = to_take; max_unspent = zeros 32 } ∷ []
    pub permit_read : PermitsRead asset permit args.permit

  -- When a mint's operation is returned, its target, amount and nonce are decoded from the request's
  -- texts, its calldata is that of a mint of the same amount that it takes from the user, and it has
  -- a permit exactly when the request has one, with the fields read from that one.
  pub create_solve_args_sig_args_mint_graph-IsMint :
      (prog : Bytes) (asset : ℕ) (market out amount referrer recipient : Bytes)
      (permit : Option Model.Permit) (ms_ts : Bytes) (m : SolveArgsSigArgs) (h h' : History)
      → Returned
          (create_solve_args_sig_args_mint_graph x prog asset market out amount referrer recipient
            permit ms_ts)
          h
          m
          h'
      → IsMint asset market out amount referrer recipient permit ms_ts m.args
  unfolding create_solve_args_sig_args_mint_graph create_solve_args_sig_args_mint
      create_solve_args_sig_args
  create_solve_args_sig_args_mint_graph-IsMint prog asset market out amount referrer recipient
        permit ms_ts m h h' r =
      let (o, h₁, p₁, rest₁) = bind-Returned r in
      let (a, h₂, p₂, rest₂) = bind-Returned rest₁ in
      let (target, h₃, p₃, rest₃) = bind-Returned rest₂ in
      let (ref, h₄, p₄, rest₄) = bind-Returned rest₃ in
      let (t, h₅, p₅, rest₅) = bind-Returned rest₄ in
      let (p, h₆, p₆, rest₆) = bind-Returned rest₅ in
      let (cd, h₇, p₇, rest₇) = bind-Returned rest₆ in
      let args : SolveArgs = record {
        permit = permit_list p;
        from_args = record { asset = asset; to_take = a; max_unspent = zeros 32 } ∷ [];
        target = target;
        cd = cd;
        ms_ts = t;
      } in
      let e = sign_solve-Returned prog args rest₇ in
      rw e (record {
        outcome_bytes = o;
        to_take = a;
        referrer_addr = ref;
        outcome_decoded = (lift-Returned (wrap-Returned _ _ p₁)).0;
        amount_decoded = (lift-Returned p₂).0;
        market_decoded = (lift-Returned (wrap-Returned _ _ p₃)).0;
        referrer_decoded = (lift-Returned (wrap-Returned _ _ p₄)).0;
        ms_ts_decoded = (lift-Returned p₅).0;
        calldata = (lift-Returned p₇).0;
        taken = refl;
        permit_read =
            permit_list-PermitsRead asset permit p (permit_graph-PermitRead asset permit p₆);
      })
