-- ===== src/Graph/DryRun.antt =====
-- Dry runs of the mutations.
use accounts_superposition_s.Prelude.{◌≡◌, Bytes, List, Bool, true, Option, ℤ}
use accounts_superposition_s.Exec.Emits.{Emits, emits_rules, Emits-when-not}
use accounts_superposition_s.Model
use accounts_superposition_s.World.{Externals}
use accounts_superposition_s.Events.{ChangesAtMostKey, Reads-ChangesAtMostKey}
use accounts_superposition_s.Convertor.Effects.{
  create_solve_v2-Emits, payoff_graph-Emits, create_account_to_fresh_backwards_graph-Emits,
}
use accounts_superposition_s.Client.Effects.{send_arguments-Emits}
use accounts_superposition_s.Graph.Resolver.{Config, Context, is_dryrun}
use accounts_superposition_s.Graph.Send.{claim_rewards}
use accounts_superposition_s.Graph.Account.{request_secret}
use accounts_superposition_s.Graph.Effects.{
  check_minimum-Emits, context_eoa-Emits, alarm-Emits, make_secret-Emits, picked_key-Emits,
  check_code-Emits,
}

ruleset pieces = (
  emits_rules, check_minimum-Emits, context_eoa-Emits,
  create_account_to_fresh_backwards_graph-Emits, Emits-when-not,
)

module _ (x : Externals) (r : Config) (ctx : Context) where
  -- A dry run of `ClaimRewards` sends no transaction and inserts no row: the choice of a key is its
  -- only change.
  pub claim_rewards-dry :
      (markets : List Bytes) (ms_ts : Bytes) (dryrun : Option Bool)
      → is_dryrun dryrun ≡ true
      → Emits ChangesAtMostKey (claim_rewards x r ctx markets ms_ts dryrun)
  unfolding claim_rewards
  claim_rewards-dry markets ms_ts dryrun dry =
      search
        (
          pieces, picked_key-Emits, alarm-Emits, payoff_graph-Emits, create_solve_v2-Emits,
          send_arguments-Emits, Reads-ChangesAtMostKey,
        )
        depth 30

  -- A dry run of `RequestSecret` inserts no secret and sends no transaction.
  pub request_secret-dry :
      (eoa : Bytes) (nonce v : ℤ) (sr ss : Bytes) (dryrun : Option Bool)
      → is_dryrun dryrun ≡ true
      → Emits ChangesAtMostKey (request_secret x r ctx eoa nonce v sr ss dryrun)
  unfolding request_secret
  request_secret-dry eoa nonce v sr ss dryrun dry =
      search (pieces, check_code-Emits, make_secret-Emits, Reads-ChangesAtMostKey) depth 30
