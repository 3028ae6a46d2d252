-- ===== src/Convertor/Sign.antt =====
-- The call of the external signer over the SHA-512 digest of a serialised message.
use accounts_superposition_s.Prelude.{ℕ, Bytes, List, Option, none, some}
use accounts_superposition_s.Outcome.{note, bytes, ◌◂◌}
use accounts_superposition_s.Exec.{Exec, pure, raise, lift, ask, wrap, ◌>>=◌}
use accounts_superposition_s.Go.{copy, hex_encode}
use accounts_superposition_s.Types.{
  SolveArgs, SolveV2Args, SolveV3Args, Args, zeros, zero_args, solve_v2, solve_v3,
}
use accounts_superposition_s.World.{Event, run_signer, outcome, Externals}

-- `copy(signature[:], sig)`, or the error with what the program printed
unfoldable pub signature_of : Bytes → Option Bytes → Exec Event Bytes
signature_of out none = pure (copy (zeros 64) out)
signature_of out (some e) = raise (note "invoking dalekph: " ◂ bytes out ◂ note ", " ◂ bytes e)

module _ (x : Externals) where
  unfoldable pub sign_digest : Bytes → Bytes → Exec Event Bytes
  unfolding signature_of
  sign_digest prog encoded = do
    let digest = hex_encode (x.sha512 encoded)
    o ← ask (run_signer prog digest) (x.signer_output prog digest)
    signature_of o.out o.failure

  unfoldable pub create_solve_v2 : Bytes → List SolveArgs → Bytes → Bytes → Exec Event Args
  unfolding sign_digest
  create_solve_v2 prog args permit_owner transfer_owner = do
    let solve_args : SolveV2Args = record {
      args = args;
      permit_owner = permit_owner;
      transfer_owner = transfer_owner;
    }
    encoded ←
        wrap "making solve v2 digest: " (lift (outcome (x.serialize_solve_v2_args solve_args)))
    signature ← sign_digest prog encoded
    pure (record (zero_args solve_v2) { solve_v2 = record { args = solve_args; sig = signature } })

  unfoldable pub create_solve_v3 : Bytes → List SolveArgs → ℕ → ℕ → Exec Event Args
  unfolding sign_digest
  create_solve_v3 prog args gas_token gas_token_amt = do
    let solve_args : SolveV3Args = record {
      args = args;
      gas_token = gas_token;
      gas_token_amt = gas_token_amt;
      gas_token_permit = none;
    }
    encoded ←
        wrap "making solve v2 digest: " (lift (outcome (x.serialize_solve_v3_args solve_args)))
    signature ← sign_digest prog encoded
    pure (record (zero_args solve_v3) { solve_v3 = record { args = solve_args; sig = signature } })
