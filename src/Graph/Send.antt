-- ===== src/Graph/Send.antt =====
-- graph/schema.resolvers.go: `NinelivesMint` and `ClaimRewards`, which act for a known user.
use accounts_superposition_s.Prelude.{
  Bytes, List, [], ◌∷◌, Bool, true, false, not, Option, none, some, ltb, ℤ, pos, negsuc,
}
use accounts_superposition_s.Outcome.{Error, note, bytes, ◌◂◌}
use accounts_superposition_s.Exec.{
  Exec, pure, raise, crash, exit, refuse_if, when, on_error, wrap, ◌>>=◌, ◌>>◌,
}
use accounts_superposition_s.Go.{set_string, int_text}
use accounts_superposition_s.World.{Event, Externals}
use accounts_superposition_s.Model
use accounts_superposition_s.ClientAddr.{get_client_addr}
use accounts_superposition_s.Convertor.{
  create_solve_v2, create_solve_args_sig_args_mint_graph, create_payoff_for_other_args_graph,
}
use accounts_superposition_s.Client.{send_arguments}
use accounts_superposition_s.Db.{pick_private_key}
use accounts_superposition_s.Graph.Resolver.{
  Config, Context, snowflake_of, authed_of, prog_dalek, is_dryrun, is_ignorable,
  activate_soft_alarm, track_tx,
}

-- `a.Cmp(b) > 0`
unfoldable pub above : ℤ → ℤ → Bool
above (pos a) (pos b) = ltb b a
above (pos a) (negsuc b) = true
above (negsuc a) (pos b) = false
above (negsuc a) (negsuc b) = ltb a b

-- `amt, _ := SetString(…)` leaves nil for a text that is no number, and `Cmp` reads it.
unfoldable pub check_minimum : ℤ → Option ℤ → Exec Event (Unit {0})
unfolding above
check_minimum minimum none = crash
check_minimum minimum (some amt) =
    refuse_if (above minimum amt)
      (note "below the minimum amount (" ◂ bytes (int_text amt) ◂ note ")")

-- `eoa, ok := ctx.Value("eoa").(ethCommon.Address)`
unfoldable pub context_eoa : Option Bytes → Exec Event Bytes
context_eoa none = raise (note "bad eoa address")
context_eoa (some eoa) = pure eoa

module _ (x : Externals) (r : Config) where
  -- `db.PickPrivateKey`, where an error ends the process
  unfoldable pub picked_key : Exec Event (Bytes × Bytes)
  picked_key = on_error (pick_private_key x) (λ e. exit (note "picking private key: " ◂ e))

  unfoldable pub alarm_unless_ignorable : Context → Error → Error → Exec Event (Unit {0})
  alarm_unless_ignorable ctx e report =
      when (not (is_ignorable e)) (activate_soft_alarm x r.url_alarm (snowflake_of ctx) report)

  abbrev mint_report : Model.Mint → Bytes → Bytes → Error → Error
  mint_report mint eoa sender e =
      bytes mint.market
      ◂ note ", outcome: "
      ◂ bytes mint.outcome
      ◂ note ", user address: "
      ◂ bytes (x.address_string eoa)
      ◂ note ", sender: "
      ◂ bytes (x.address_string sender)
      ◂ note ", err: "
      ◂ e

  unfoldable pub ninelives_mint : Context → Model.Mint → Option Bool → Exec Event Bytes
  unfolding check_minimum context_eoa picked_key alarm_unless_ignorable
  ninelives_mint ctx mint dryrun = do
    refuse_if r.feature_mint_disabled (note "mint disabled")
    check_minimum r.minimum_amount (set_string mint.amount)
    refuse_if (not (authed_of ctx)) (note "not authed in the handler")
    eoa ← context_eoa ctx.eoa
    let client_addr = get_client_addr x r.accounts_factory_addr eoa
    (priv_key, sender) ← picked_key
    f ←
        on_error
          (create_solve_args_sig_args_mint_graph x prog_dalek x.asset_usdc mint.market mint.outcome
            mint.amount mint.referrer eoa mint.permit mint.ms_ts)
          λ e. do
            alarm_unless_ignorable ctx e (note "mint, market: " ◂ mint_report mint eoa sender e)
            raise (note "error creating solve args: " ◂ e)
    solve_v2 ←
        wrap "error creating solve v2 args: " (create_solve_v2 x prog_dalek (f.args ∷ []) eoa eoa)
    (h, gas_limit) ←
        on_error
          (send_arguments x r.safety_router_addr true r.chain_id priv_key sender client_addr
            solve_v2 (is_dryrun dryrun))
          λ e. do
            alarm_unless_ignorable ctx e
                (note "mint send, market: " ◂ mint_report mint eoa sender e)
            raise (note "last error sending: " ◂ e)
    when (not (is_dryrun dryrun))
        (track_tx x (x.address_string eoa) (x.hash_hex h) gas_limit "mint")
    pure (x.hash_hex h)

  unfoldable pub claim_rewards : Context → List Bytes → Bytes → Option Bool → Exec Event Bytes
  unfolding context_eoa picked_key
  claim_rewards ctx markets ms_ts dryrun = do
    refuse_if r.feature_claim_disabled (note "claim is disabled")
    refuse_if (not (authed_of ctx)) (note "not authed in the handler for claim rewards")
    eoa ← context_eoa ctx.eoa
    let client_addr = get_client_addr x r.accounts_factory_addr eoa
    (priv_key, sender) ← picked_key
    f ←
        wrap "error creating solve args: "
          (create_payoff_for_other_args_graph x prog_dalek r.claimant_helper_addr eoa markets ms_ts)
    solve_v2 ←
        wrap "error creating solve v2 args: " (create_solve_v2 x prog_dalek (f.args ∷ []) eoa eoa)
    (h, gas_limit) ←
        on_error
          (send_arguments x r.safety_router_addr true r.chain_id priv_key sender client_addr
            solve_v2 (is_dryrun dryrun))
          λ e. do
            activate_soft_alarm x r.url_alarm (snowflake_of ctx) (
                note "claim, user address: "
                ◂ bytes (x.address_string eoa)
                ◂ note ", sender: "
                ◂ bytes (x.address_string sender)
                ◂ note ", contract: "
                ◂ bytes (x.address_string r.accounts_factory_addr)
                ◂ note ", err: "
                ◂ e)
            raise (note "last error sending: " ◂ e)
    when (not (is_dryrun dryrun))
        (track_tx x (x.address_string eoa) (x.hash_hex h) gas_limit "claim rewards")
    pure (x.hash_hex h)
