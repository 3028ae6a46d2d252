-- ===== src/Convertor/Request.antt =====
-- Single solve operations: permits, the solve with one token, the mint, and the payoff claim.
use accounts_superposition_s.Prelude.{ℕ, Bytes, List, [], ◌∷◌, not, Option, none, some, ℤ}
use accounts_superposition_s.Outcome
use accounts_superposition_s.Outcome.{note, bytes, ◌◂◌, Outcome, ok}
use accounts_superposition_s.Exec.{Exec, pure, lift, wrap, ◌>>=◌}
use accounts_superposition_s.Types.{Permit, SolveArgs, SolveArgsSigArgs, zeros}
use accounts_superposition_s.Model
use accounts_superposition_s.World.{Event, outcome, Externals}
use accounts_superposition_s.Ninelives.{new_mint, new_payoff_for_other}
use accounts_superposition_s.Convertor.Decode.{
  str_to_bytes, str_to_addr, amount_bytes, ms_ts_right, ms_ts_left, checked_v, checked_deadline,
}
use accounts_superposition_s.Convertor.Sign.{sign_digest}

unfoldable pub new_permit : ℕ → ℕ → ℕ → Bytes → Bytes → Permit
new_permit asset deadline v r s = record { asset = asset; deadline = deadline; v = v; r = r; s = s }

unfoldable pub new_permit_graph : ℕ → ℕ → ℤ → Bytes → Bytes → Exec Event Permit
unfolding new_permit
new_permit_graph asset deadline permit_v permit_r permit_s = do
  v ← lift (checked_v permit_v)
  r ← wrap "permit r: " (lift (str_to_bytes 32 permit_r))
  s ← wrap "permit s: " (lift (str_to_bytes 32 permit_s))
  pure (new_permit asset deadline v r s)

-- `var p *types.Permit; if permit != nil { … }`
unfoldable pub permit_graph : ℕ → Option Model.Permit → Exec Event (Option Permit)
unfolding new_permit_graph
permit_graph asset none = pure none
permit_graph asset (some permit) = do
  deadline ← lift (checked_deadline permit.deadline)
  p ←
      wrap "permit: "
        (new_permit_graph asset deadline permit.permit_v permit.permit_r permit.permit_s)
  pure (some p)

-- `append(solveArgs.Permit, *permit)` on the empty slice, if there is a permit
abbrev pub permit_list : Option Permit → List Permit
permit_list none = []
permit_list (some p) = p ∷ []

module _ (x : Externals) where
  -- the end that the three constructors share: serialise, sign the digest, copy the signature
  unfoldable pub sign_solve : Bytes → SolveArgs → Exec Event SolveArgsSigArgs
  sign_solve prog args = do
    encoded ← wrap "making digest: " (lift (outcome (x.serialize_solve_args args)))
    sig ← sign_digest x prog encoded
    pure (record { sig = sig; args = args })

  unfoldable pub create_solve_args_sig_args :
      Bytes → ℕ → Bytes → Bytes → Bytes → Option Permit → Bytes → Exec Event SolveArgsSigArgs
  unfolding sign_solve
  create_solve_args_sig_args prog asset target amount cd permit ms_ts = sign_solve prog (record {
    permit = permit_list permit;
    from_args = record { asset = asset; to_take = amount; max_unspent = zeros 32 } ∷ [];
    target = target;
    cd = cd;
    ms_ts = ms_ts;
  })

  unfoldable pub create_solve_args_sig_args_no_token :
      Bytes → Bytes → Bytes → Bytes → Exec Event SolveArgsSigArgs
  unfolding sign_solve
  create_solve_args_sig_args_no_token prog target cd ms_ts =
      sign_solve prog
        (record { permit = []; from_args = []; target = target; cd = cd; ms_ts = ms_ts })

  unfoldable pub create_solve_args_sig_args_graph :
      Bytes → ℕ → Bytes → Bytes → Bytes → Option Model.Permit → Bytes → Exec Event SolveArgsSigArgs
  unfolding create_solve_args_sig_args
  create_solve_args_sig_args_graph prog asset target amount cd permit ms_ts = do
    a ← lift (amount_bytes amount)
    t ← lift (ms_ts_right ms_ts)
    m ← wrap "addr: " (lift (str_to_addr target))
    p ← permit_graph asset permit
    create_solve_args_sig_args prog asset m a cd p t

  unfoldable pub create_solve_args_sig_args_mint :
      Bytes
      → ℕ
      → Bytes
      → Bytes
      → Bytes
      → Bytes
      → Bytes
      → Option Permit
      → Bytes
      → Exec Event SolveArgsSigArgs
  unfolding create_solve_args_sig_args
  create_solve_args_sig_args_mint prog asset market out amount referrer recipient permit ms_ts = do
    cd ← lift (new_mint x out amount referrer recipient)
    create_solve_args_sig_args prog asset market amount cd permit ms_ts

  unfoldable pub create_solve_args_sig_args_mint_graph :
      Bytes
      → ℕ
      → Bytes
      → Bytes
      → Bytes
      → Bytes
      → Bytes
      → Option Model.Permit
      → Bytes
      → Exec Event SolveArgsSigArgs
  unfolding create_solve_args_sig_args_mint
  create_solve_args_sig_args_mint_graph prog asset market out amount referrer recipient permit
        ms_ts =
      do
        o ← wrap "outcome: " (lift (str_to_bytes 8 out))
        a ← lift (amount_bytes amount)
        m ← wrap "market: " (lift (str_to_addr market))
        ref ← wrap "referrer: " (lift (str_to_addr referrer))
        t ← lift (ms_ts_left ms_ts)
        p ← permit_graph asset permit
        create_solve_args_sig_args_mint prog asset m o a ref recipient p t

  unfoldable pub create_payoff_for_other_args :
      Bytes → Bytes → Bytes → List Bytes → Bytes → Exec Event SolveArgsSigArgs
  unfolding sign_solve
  create_payoff_for_other_args prog claimant_helper eoa markets ms_ts = do
    cd ← lift (new_payoff_for_other x markets eoa)
    sign_solve prog
        (record { permit = []; from_args = []; target = claimant_helper; cd = cd; ms_ts = ms_ts })

  unfoldable pub payoff_markets : List Bytes → Outcome (List Bytes)
  payoff_markets [] = ok []
  payoff_markets (m ∷ ms) =
      let rest = payoff_markets ms in
      Outcome.◌>>◌ (Outcome.refuse_if (not (x.is_hex_address m)) (note "bad address: " ◂ bytes m))
        (Outcome.◌>>=◌ rest (λ addresses. ok (x.hex_to_address m ∷ addresses)))

  unfoldable pub create_payoff_for_other_args_graph :
      Bytes → Bytes → Bytes → List Bytes → Bytes → Exec Event SolveArgsSigArgs
  unfolding create_payoff_for_other_args payoff_markets
  create_payoff_for_other_args_graph prog claimant_helper eoa markets ms_ts = do
    t ← lift (ms_ts_right ms_ts)
    addresses ← lift (payoff_markets markets)
    create_payoff_for_other_args prog claimant_helper eoa addresses t
