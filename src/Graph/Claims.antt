-- ===== src/Graph/Claims.antt =====
-- Claims and their timestamps.
use accounts_superposition_s.Prelude.{
  ◌^◌, ◌<◌, ◌≡◌, ◌≢◌, refl, Bytes, List, Bool, Option, some, ℤ, nat_abs,
}
use accounts_superposition_s.Outcome.{ok, ok_not_panic}
use accounts_superposition_s.Exec.Inversion.{lift-Returned, bind-Returned, wrap-Returned}
use accounts_superposition_s.Go.{set_string}
use accounts_superposition_s.World.{History, Externals}
use accounts_superposition_s.Convertor.{create_payoff_for_other_args_graph}
use accounts_superposition_s.Convertor.AmountLaws.{ms_ts_right_panics}
use accounts_superposition_s.Graph.Resolver.{Config, Context}
use accounts_superposition_s.Graph.Send.{claim_rewards}

module _ (x : Externals) (r : Config) (ctx : Context) where
  -- `ClaimRewards` never returns a transaction hash for a timestamp whose absolute value is below
  -- 2 ^ 120, whatever the outside answers.
  pub claim_rewards_never :
      (markets : List Bytes) (ms_ts : Bytes) (z : ℤ) (dryrun : Option Bool) (h : History)
      (tx : Bytes)
      → set_string ms_ts ≡ some z
      → nat_abs z < 256 ^ 15
      → (claim_rewards x r ctx markets ms_ts dryrun h).0 ≢ ok tx
  unfolding claim_rewards create_payoff_for_other_args_graph
  claim_rewards_never markets ms_ts z dryrun h tx number small p =
      let (u₁, h₁, p₁, rest₁) = bind-Returned (record { value = p; history = refl }) in
      let (u₂, h₂, p₂, rest₂) = bind-Returned rest₁ in
      let (eoa, h₃, p₃, rest₃) = bind-Returned rest₂ in
      let (key, h₄, p₄, rest₄) = bind-Returned rest₃ in
      let (f, h₅, p₅, rest₅) = bind-Returned rest₄ in
      let (t, h₆, p₆, rest₆) = bind-Returned (wrap-Returned _ _ p₅) in
      ok_not_panic (lift-Returned p₆).0 (ms_ts_right_panics ms_ts z number small)
