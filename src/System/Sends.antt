-- ===== src/System/Sends.antt =====
-- How many transactions a request sends.
use accounts_superposition_s.Prelude.{
  ℕ, suc, ◌+◌, ◌≤◌, refl, Bytes, List, [], ◌∷◌, Bool, true, false, length, if◌then◌else◌, arith,
}
use accounts_superposition_s.Outcome.{Outcome, ok, err, panic, fatal}
use accounts_superposition_s.Exec.Once.{Once-Emits, Not, count, count-Added}
use accounts_superposition_s.World.{History, Externals}
use accounts_superposition_s.Events.{is_send}
use accounts_superposition_s.Graph.Resolver.{Config, Context}
use accounts_superposition_s.Graph.OneSend.{
  ninelives_mint-Once, claim_rewards-Once, create_account_exec-Once, request_secret-sends_nothing,
}
use accounts_superposition_s.Server.Auth.{Action, respond, serve, serve_http}
use accounts_superposition_s.System.Lookups.{
  Lookups, has_created-Emits, statistics-Emits, serve_http-Emits,
}
use accounts_superposition_s.System.Requests.{
  Field, creates, requests, mints, claims, asks_publickey, asks_eoa, asks_created, asks_statistics,
  Arrival, resolve, resolve_all, continue_with, handle,
}

Lookups-send : Lookups (Not is_send)
Lookups-send = record { created = λ t. refl; secrets = λ t s. refl; rows = refl }

stop_or_go :
    (go : Bool) (h h₁ h₂ : History) (n : ℕ)
    → count is_send h₁ ≤ count is_send h + 1
    → count is_send h₂ ≤ count is_send h₁ + n
    → count is_send (if go then h₂ else h₁) ≤ count is_send h + suc n
stop_or_go true h h₁ h₂ n p q = omega arith
stop_or_go false h h₁ h₂ n p q = omega arith

module _ (x : Externals) (r : Config) where
  resolve-sends :
      (ctx : Context) (f : Field) (h : History)
      → count is_send (resolve x r ctx f h).1 ≤ count is_send h + 1
  unfolding resolve
  resolve-sends ctx (creates c mint dryrun) h =
      (create_account_exec-Once x r ctx c mint dryrun).at h
  resolve-sends ctx (requests eoa nonce v sr ss dryrun) h =
      (Once-Emits _ (request_secret-sends_nothing x r ctx eoa nonce v sr ss dryrun)).at h
  resolve-sends ctx (mints mint dryrun) h = (ninelives_mint-Once x r ctx mint dryrun).at h
  resolve-sends ctx (claims markets ms_ts dryrun) h =
      (claim_rewards-Once x r ctx markets ms_ts dryrun).at h
  resolve-sends ctx asks_publickey h = omega arith
  resolve-sends ctx (asks_eoa address) h = omega arith
  resolve-sends ctx (asks_created address) h =
      (Once-Emits _ (has_created-Emits x r Lookups-send address)).at h
  resolve-sends ctx asks_statistics h = (Once-Emits _ (statistics-Emits x r Lookups-send)).at h

  resolve_all-sends :
      (ctx : Context) (fs : List Field) (h : History)
      → count is_send (resolve_all x r ctx fs h) ≤ count is_send h + length fs
  unfolding resolve_all
  resolve_all-sends ctx [] h = omega arith
  resolve_all-sends ctx (f ∷ fs) h =
      let h₁ = (resolve x r ctx f h).1 in
      stop_or_go (resolve x r ctx f h).0 h h₁ (resolve_all x r ctx fs h₁) (length fs)
        (resolve-sends ctx f h) (resolve_all-sends ctx fs h₁)

  continue_with-sends :
      {H : Type 0} (fields : List Field) (o : Outcome (H × Action)) (h : History)
      → count is_send (continue_with x r fields o h) ≤ count is_send h + length fields
  continue_with-sends fields (ok (headers, serve ctx)) h = resolve_all-sends ctx fields h
  continue_with-sends fields (ok (headers, respond status told)) h = omega arith
  continue_with-sends fields (err e) h = omega arith
  continue_with-sends fields panic h = omega arith
  continue_with-sends fields (fatal e) h = omega arith

  -- A request sends at most one transaction for each of its fields, whatever the outside answers,
  -- and on every path.
  pub handle-sends :
      (admin_secret : Bytes) (a : Arrival) (h : History)
      → count is_send (handle x r admin_secret a h) ≤ count is_send h + length a.fields
  unfolding handle
  handle-sends admin_secret a h = omega (
    arith,
    count-Added is_send
        ((serve_http-Emits x r Lookups-send admin_secret a.snowflake a.request).at h),
    continue_with-sends a.fields (serve_http x admin_secret a.snowflake a.request h).0
        (serve_http x admin_secret a.snowflake a.request h).1,
  )
