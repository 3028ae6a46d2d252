-- ===== src/Graph/Unauthed.antt =====
-- Requests without a proven user.
use accounts_superposition_s.Prelude.{◌≡◌, ◌≢◌, Bytes, List, Bool, false, Option, arith}
use accounts_superposition_s.Outcome.{ok}
use accounts_superposition_s.Exec.{refuse_if, ◌>>=◌}
use accounts_superposition_s.Model
use accounts_superposition_s.World.{History, Externals}
use accounts_superposition_s.Graph.Resolver.{Config, Context, authed_of}
use accounts_superposition_s.Graph.Send.{ninelives_mint, claim_rewards, check_minimum}

module _ (x : Externals) (r : Config) (ctx : Context) where
  -- A mint without an authenticated user asks nothing of the outside and returns no hash.
  pub ninelives_mint_unauthed :
      (mint : Model.Mint) (dryrun : Option Bool) (h : History)
      → authed_of ctx ≡ false
      → ((ninelives_mint x r ctx mint dryrun h).1 ≡ h)
        × ((tx : Bytes) → (ninelives_mint x r ctx mint dryrun h).0 ≢ ok tx)
  unfolding ninelives_mint check_minimum refuse_if ◌>>=◌
  ninelives_mint_unauthed mint dryrun h un = (ground arith, λ tx. ground arith)

  -- A claim without an authenticated user asks nothing of the outside and returns no hash.
  pub claim_rewards_unauthed :
      (markets : List Bytes) (ms_ts : Bytes) (dryrun : Option Bool) (h : History)
      → authed_of ctx ≡ false
      → ((claim_rewards x r ctx markets ms_ts dryrun h).1 ≡ h)
        × ((tx : Bytes) → (claim_rewards x r ctx markets ms_ts dryrun h).0 ≢ ok tx)
  unfolding claim_rewards refuse_if ◌>>=◌
  claim_rewards_unauthed markets ms_ts dryrun h un = (ground arith, λ tx. ground arith)
