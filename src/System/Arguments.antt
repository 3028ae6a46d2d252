-- ===== src/System/Arguments.antt =====
-- graph/generated.go: how the arguments of a field are read, and to which resolver they go.
pub mod Maps
pub mod Reading
pub mod Accepted
use accounts_superposition_s.Prelude.{
  ℕ, suc, Bytes, codes, List, [], ◌∷◌, Bool, bytes_eq, if◌then◌else◌, Option, none, some, ℤ, pos,
}
use accounts_superposition_s.Outcome.{Outcome, ok, panic, ◌>>=◌}
use accounts_superposition_s.Go.{itoa}
use accounts_superposition_s.World.{Reply}
use accounts_superposition_s.Model
use accounts_superposition_s.Graph.Inputs.{
  Raw, null, object, scalar, RawMap, Coercion, zero_mint, zero_create_account, on_path, replied,
  unmarshal_n_string, unmarshal_n_int, unmarshal_input_mint, unmarshal_input_create_account,
}
use accounts_superposition_s.System.Requests.{
  Field, creates, requests, mints, claims, asks_publickey, asks_eoa, asks_created, asks_statistics,
}

-- What is used of gqlgen besides: `UnmarshalBoolean`, `CoerceList`, and `ProcessArgField`, with the
-- zero value of the type, the map, the key, the function and the path of the context.
pub record Runtime : Type 1 where
  pub coercion : Coercion
  pub unmarshal_boolean : Raw → Reply Bool
  pub coerce_list : Raw → List Raw
  pub process_arg_field :
      {A : Type 0} → A → RawMap → Bytes → (List Bytes → Raw → Outcome A) → List Bytes → Outcome A

module _ (g : Runtime) where
  unfoldable pub strings_from : ℕ → List Bytes → List Raw → Outcome (List Bytes)
  strings_from i path [] = ok []
  strings_from i path (v ∷ vs) =
      let rest = strings_from (suc i) path vs in
      do s ← unmarshal_n_string g.coercion (itoa i ∷ path) v; l ← rest; ok (s ∷ l)

  abbrev pub unmarshal_n_strings : List Bytes → Raw → Outcome (List Bytes)
  unmarshal_n_strings path v = strings_from 0 path (g.coerce_list v)

  abbrev pub unmarshal_boolean_at : List Bytes → Raw → Outcome Bool
  unmarshal_boolean_at path v = replied g.coercion path (g.unmarshal_boolean v)

  unfoldable pub unmarshal_o_boolean : List Bytes → Raw → Outcome (Option Bool)
  unmarshal_o_boolean path null = ok none
  unmarshal_o_boolean path v = do b ← unmarshal_boolean_at path v; ok (some b)

  abbrev pub unmarshal_n_mint : List Bytes → Raw → Outcome Model.Mint
  unmarshal_n_mint path v = on_path g.coercion path (unmarshal_input_mint g.coercion path v)

  unfoldable pub unmarshal_o_mint : List Bytes → Raw → Outcome (Option Model.Mint)
  unmarshal_o_mint path null = ok none
  unmarshal_o_mint path v = do m ← unmarshal_n_mint path v; ok (some m)

  abbrev pub unmarshal_n_create_account : List Bytes → Raw → Outcome Model.CreateAccount
  unmarshal_n_create_account path v =
      on_path g.coercion path (unmarshal_input_create_account g.coercion path v)

  unfoldable pub field_mutation_claim_rewards_args :
      List Bytes → RawMap → Outcome (List Bytes × Bytes × Option Bool)
  unfolding strings_from unmarshal_o_boolean
  field_mutation_claim_rewards_args path m = do
    markets ← g.process_arg_field [] m (codes "markets") unmarshal_n_strings path
    ms_ts ← g.process_arg_field [] m (codes "msTs") (unmarshal_n_string g.coercion) path
    dryrun ← g.process_arg_field none m (codes "dryrun") unmarshal_o_boolean path
    ok (markets, ms_ts, dryrun)

  unfoldable pub field_mutation_create_account_exec_args :
      List Bytes → RawMap → Outcome (Model.CreateAccount × Option Model.Mint × Option Bool)
  unfolding unmarshal_o_mint unmarshal_o_boolean
  field_mutation_create_account_exec_args path m = do
    create_account ←
        g.process_arg_field zero_create_account m (codes "createAccount") unmarshal_n_create_account
          path
    mint ← g.process_arg_field none m (codes "mint") unmarshal_o_mint path
    dryrun ← g.process_arg_field none m (codes "dryrun") unmarshal_o_boolean path
    ok (create_account, mint, dryrun)

  unfoldable pub field_mutation_ninelives_mint_args :
      List Bytes → RawMap → Outcome (Model.Mint × Option Bool)
  unfolding unmarshal_o_boolean
  field_mutation_ninelives_mint_args path m = do
    mint ← g.process_arg_field zero_mint m (codes "mint") unmarshal_n_mint path
    dryrun ← g.process_arg_field none m (codes "dryrun") unmarshal_o_boolean path
    ok (mint, dryrun)

  unfoldable pub field_mutation_request_secret_args :
      List Bytes → RawMap → Outcome (Bytes × ℤ × ℤ × Bytes × Bytes × Option Bool)
  unfolding unmarshal_o_boolean
  field_mutation_request_secret_args path m = do
    eoa_addr ← g.process_arg_field [] m (codes "eoa_addr") (unmarshal_n_string g.coercion) path
    nonce ← g.process_arg_field (pos 0) m (codes "nonce") (unmarshal_n_int g.coercion) path
    sig_v ← g.process_arg_field (pos 0) m (codes "sigV") (unmarshal_n_int g.coercion) path
    sig_r ← g.process_arg_field [] m (codes "sigR") (unmarshal_n_string g.coercion) path
    sig_s ← g.process_arg_field [] m (codes "sigS") (unmarshal_n_string g.coercion) path
    dryrun ← g.process_arg_field none m (codes "dryrun") unmarshal_o_boolean path
    ok (eoa_addr, nonce, sig_v, sig_r, sig_s, dryrun)

  unfoldable pub field_query_type_args : List Bytes → RawMap → Outcome Bytes
  field_query_type_args path m =
      g.process_arg_field [] m (codes "name") (unmarshal_n_string g.coercion) path

  unfoldable pub field_query_eoa_for_address_args : List Bytes → RawMap → Outcome Bytes
  field_query_eoa_for_address_args path m =
      g.process_arg_field [] m (codes "address") (unmarshal_n_string g.coercion) path

  unfoldable pub field_query_has_created_args : List Bytes → RawMap → Outcome Bytes
  field_query_has_created_args path m =
      g.process_arg_field [] m (codes "address") (unmarshal_n_string g.coercion) path

  -- `_Mutation` and its fields, up to the call of the resolver; `__typename` calls none
  unfoldable pub read_mutation : Bytes → List Bytes → RawMap → Outcome (Option Field)
  unfolding field_mutation_claim_rewards_args field_mutation_create_account_exec_args
      field_mutation_ninelives_mint_args field_mutation_request_secret_args
  read_mutation name path m =
      if bytes_eq name (codes "__typename")
      then ok none
      else if bytes_eq name (codes "createAccountExec")
      then (do
        (c, mint, dryrun) ← field_mutation_create_account_exec_args path m
        ok (some (creates c mint dryrun)))
      else if bytes_eq name (codes "requestSecret")
      then (do
        (eoa, nonce, v, sr, ss, dryrun) ← field_mutation_request_secret_args path m
        ok (some (requests eoa nonce v sr ss dryrun)))
      else if bytes_eq name (codes "ninelivesMint")
      then (do
        (mint, dryrun) ← field_mutation_ninelives_mint_args path m
        ok (some (mints mint dryrun)))
      else if bytes_eq name (codes "claimRewards")
      then (do
        (markets, ms_ts, dryrun) ← field_mutation_claim_rewards_args path m
        ok (some (claims markets ms_ts dryrun)))
      else panic

  -- `_Query` and its fields; the introspection calls no resolver
  unfoldable pub read_query : Bytes → List Bytes → RawMap → Outcome (Option Field)
  unfolding field_query_eoa_for_address_args field_query_has_created_args field_query_type_args
  read_query name path m =
      if bytes_eq name (codes "__typename")
      then ok none
      else if bytes_eq name (codes "publickey")
      then ok (some asks_publickey)
      else if bytes_eq name (codes "eoaForAddress")
      then (do address ← field_query_eoa_for_address_args path m; ok (some (asks_eoa address)))
      else if bytes_eq name (codes "hasCreated")
      then (do address ← field_query_has_created_args path m; ok (some (asks_created address)))
      else if bytes_eq name (codes "statistics")
      then ok (some asks_statistics)
      else if bytes_eq name (codes "__type")
      then (do named ← field_query_type_args path m; ok none)
      else if bytes_eq name (codes "__schema")
      then ok none
      else panic
