-- ===== src/Graph/OneSend.antt =====
-- How often a mutation sends.
use accounts_superposition_s.Prelude.{Bytes, List, Bool, Option, ℤ}
use accounts_superposition_s.Exec.Emits.{Emits, emits_rules}
use accounts_superposition_s.Exec.Once.{Once, Not, once_rules}
use accounts_superposition_s.Model
use accounts_superposition_s.World.{Externals}
use accounts_superposition_s.Events.{is_send, Reads-send}
use accounts_superposition_s.Convertor.Effects.{
  create_solve_v2-Emits, mint_graph-Emits, payoff_graph-Emits,
  create_account_to_fresh_backwards_graph-Emits,
}
use accounts_superposition_s.Client.Effects.{send_arguments-Once}
use accounts_superposition_s.Graph.Resolver.{Config, Context}
use accounts_superposition_s.Graph.Send.{ninelives_mint, claim_rewards}
use accounts_superposition_s.Graph.Account.{create_account_exec, request_secret}
use accounts_superposition_s.Graph.Effects.{
  check_minimum-Emits, context_eoa-Emits, pick_private_key-Emits, alarm-Emits, make_secret-Emits,
  picked_key-Emits, alarm_unless_ignorable-Emits, tag_mint-Emits, check_code-Emits, insert-Emits,
  track_tx-Emits,
}

ruleset pieces = (
  once_rules, emits_rules, check_minimum-Emits, context_eoa-Emits,
  create_account_to_fresh_backwards_graph-Emits,
)

module _ (x : Externals) (r : Config) (ctx : Context) where
  -- One call of `NinelivesMint` sends one transaction at most, on every path.
  pub ninelives_mint-Once :
      (mint : Model.Mint) (dryrun : Option Bool) → Once is_send (ninelives_mint x r ctx mint dryrun)
  unfolding ninelives_mint
  ninelives_mint-Once mint dryrun =
      search
        (
          pieces, picked_key-Emits, alarm_unless_ignorable-Emits, mint_graph-Emits,
          create_solve_v2-Emits, send_arguments-Once, track_tx-Emits, Reads-send,
        )
        depth 30

  -- One call of `ClaimRewards` sends one transaction at most.
  pub claim_rewards-Once :
      (markets : List Bytes) (ms_ts : Bytes) (dryrun : Option Bool)
      → Once is_send (claim_rewards x r ctx markets ms_ts dryrun)
  unfolding claim_rewards
  claim_rewards-Once markets ms_ts dryrun =
      search
        (
          pieces, picked_key-Emits, alarm-Emits, payoff_graph-Emits, create_solve_v2-Emits,
          send_arguments-Once, track_tx-Emits, Reads-send,
        )
        depth 30

  -- One call of `CreateAccountExec` sends one transaction at most.
  pub create_account_exec-Once :
      (c : Model.CreateAccount) (mint : Option Model.Mint) (dryrun : Option Bool)
      → Once is_send (create_account_exec x r ctx c mint dryrun)
  unfolding create_account_exec
  create_account_exec-Once c mint dryrun =
      search
        (
          pieces, pick_private_key-Emits, alarm-Emits, tag_mint-Emits, make_secret-Emits,
          send_arguments-Once, track_tx-Emits, insert-Emits, Reads-send,
        )
        depth 30

  -- `RequestSecret` never sends a transaction.
  pub request_secret-sends_nothing :
      (eoa : Bytes) (nonce v : ℤ) (sr ss : Bytes) (dryrun : Option Bool)
      → Emits (Not is_send) (request_secret x r ctx eoa nonce v sr ss dryrun)
  unfolding request_secret
  request_secret-sends_nothing eoa nonce v sr ss dryrun =
      search (pieces, check_code-Emits, make_secret-Emits, insert-Emits, Reads-send) depth 30
