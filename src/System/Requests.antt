-- ===== src/System/Requests.antt =====
-- A request: the middleware, and then the fields of the GraphQL operation, each to its resolver.
use accounts_superposition_s.Prelude.{
  ℕ, Bytes, List, [], ◌∷◌, Bool, true, false, Option, ℤ, if◌then◌else◌,
}
use accounts_superposition_s.Outcome.{Outcome, ok, err, panic, fatal}
use accounts_superposition_s.Model
use accounts_superposition_s.World.{History, Externals}
use accounts_superposition_s.Graph.Resolver.{Config, Context}
use accounts_superposition_s.Graph.Send.{ninelives_mint, claim_rewards}
use accounts_superposition_s.Graph.Account.{create_account_exec, request_secret}
use accounts_superposition_s.Graph.Queries.{publickey, eoa_for_address, has_created, statistics}
use accounts_superposition_s.Server.Auth.{Request, Action, respond, serve, serve_http}

-- A field of the operation, with its arguments.
pub data Field : Type 0 where
  creates : Model.CreateAccount → Option Model.Mint → Option Bool → Field
  requests : Bytes → ℤ → ℤ → Bytes → Bytes → Option Bool → Field
  mints : Model.Mint → Option Bool → Field
  claims : List Bytes → Bytes → Option Bool → Field
  asks_publickey : Field
  asks_eoa : Bytes → Field
  asks_created : Bytes → Field
  asks_statistics : Field

-- A panic of a resolver is recovered, and only `log.Fatalf` ends the process.
abbrev pub alive : {A : Type 0} → Outcome A → Bool
alive (ok a) = true
alive (err e) = true
alive panic = true
alive (fatal e) = false

abbrev pub seen : {A : Type 0} → Outcome A × History → Bool × History
seen (o, h) = (alive o, h)

pub record Arrival : Type 0 where
  pub snowflake : ℕ
  pub request : Request
  pub fields : List Field

module _ (x : Externals) (r : Config) where
  -- `switch field.Name`, and whether the process goes on
  unfoldable pub resolve : Context → Field → History → Bool × History
  resolve ctx (creates c mint dryrun) h = seen (create_account_exec x r ctx c mint dryrun h)
  resolve ctx (requests eoa nonce v sr ss dryrun) h =
      seen (request_secret x r ctx eoa nonce v sr ss dryrun h)
  resolve ctx (mints mint dryrun) h = seen (ninelives_mint x r ctx mint dryrun h)
  resolve ctx (claims markets ms_ts dryrun) h = seen (claim_rewards x r ctx markets ms_ts dryrun h)
  resolve ctx asks_publickey h = (alive (publickey x r), h)
  resolve ctx (asks_eoa address) h = (alive (eoa_for_address x r address), h)
  resolve ctx (asks_created address) h = seen (has_created x r address h)
  resolve ctx asks_statistics h = seen (statistics x r h)

  unfoldable pub resolve_all : Context → List Field → History → History
  unfolding resolve
  resolve_all ctx [] h = h
  resolve_all ctx (f ∷ fs) h =
      let rest = resolve_all ctx fs (resolve ctx f h).1 in
      if (resolve ctx f h).0 then rest else (resolve ctx f h).1

  -- What the middleware's answer lets happen.
  abbrev pub continue_with : {H : Type 0} → List Field → Outcome (H × Action) → History → History
  continue_with fields (ok (headers, serve ctx)) h = resolve_all ctx fields h
  continue_with fields (ok (headers, respond status told)) h = h
  continue_with fields (err e) h = h
  continue_with fields panic h = h
  continue_with fields (fatal e) h = h

  unfoldable pub handle : Bytes → Arrival → History → History
  unfolding resolve_all
  handle admin_secret a h =
      let (answer, h') = serve_http x admin_secret a.snowflake a.request h in
      continue_with a.fields answer h'

  -- The history after the requests that came in, the newest first, from an empty database.
  unfoldable pub history_of : Bytes → List Arrival → History
  unfolding handle
  history_of admin_secret [] = []
  history_of admin_secret (a ∷ past) = handle admin_secret a (history_of admin_secret past)
