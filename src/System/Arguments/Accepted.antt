-- ===== src/System/Arguments/Accepted.antt =====
-- Which fields are accepted, and with which arguments they go to their resolvers.
use accounts_superposition_s.Prelude.{
  ◌≡◌, refl, ◌↔◌, Bytes, codes, List, [], ◌∷◌, Bool, bytes_eq, Option, none, some, ℤ,
}
use accounts_superposition_s.Outcome.{Outcome, ok, ok-injective, bind-ok, ◌>>=◌}
use accounts_superposition_s.Model
use accounts_superposition_s.Graph.Inputs.{RawMap, zero_mint, zero_create_account}
use accounts_superposition_s.Graph.Inputs.Keys.{Keyed}
use accounts_superposition_s.System.Requests.{
  Field, creates, requests, mints, claims, asks_publickey, asks_eoa, asks_created, asks_statistics,
}
use accounts_superposition_s.System.Arguments.{
  Runtime, unmarshal_n_strings, unmarshal_n_mint, unmarshal_o_mint, unmarshal_n_create_account,
  field_mutation_claim_rewards_args, field_mutation_create_account_exec_args,
  field_mutation_ninelives_mint_args, field_mutation_request_secret_args,
  field_query_eoa_for_address_args, field_query_has_created_args, read_mutation, read_query,
}
use accounts_superposition_s.System.Arguments.Maps.{
  Kind, mutation, query, kind_of, name_of, ProcessesArguments, Texts, RequiredMint, OptionalMint,
  RequiredAccount, IsArgumentsOf,
}
use accounts_superposition_s.System.Arguments.Reading.{
  strings-Each, RequiredMint-iff, OptionalMint-iff, RequiredAccount-iff, argument_iff,
  argument-Text, argument-Number, argument-Flag,
}

-- The two switches, of `_Mutation` and of `_Query`.
abbrev pub read_root : Runtime → Kind → Bytes → List Bytes → RawMap → Outcome (Option Field)
read_root g mutation = read_mutation g
read_root g query = read_query g

some-injective : {A : Type 0} {a b : A} → some a ≡ some b → a ≡ b
some-injective e = cc (e)

-- A field is read as its arguments are.
made_iff :
    {T : Type 0} (args : Outcome T) (make : T → Field) (S : T → Type 0) (P : Field → Type 0)
    (f : Field)
    → ((t : T) → (args ≡ ok t) ↔ S t)
    → ((t : T) → S t → P (make t))
    → (P f → (t : T) × (make t ≡ f) × S t)
    → ((args >>= λ t. ok (some (make t))) ≡ ok (some f)) ↔ P f
made_iff args make S P f reads to from = (
  λ q.
      let (t, e, last) = bind-ok args q in
      rw (← some-injective (ok-injective last)) (to t ((reads t).0 e)),
  λ p. let (t, same, s) = from p in rw ((reads t).1 s, same) refl,
)

module _ (g : Runtime) (processes : ProcessesArguments g) (m : RawMap) (path : List Bytes) where
  argument-Texts :
      (key : Bytes) (l : List Bytes)
      → (g.process_arg_field [] m key (unmarshal_n_strings g) path ≡ ok l)
        ↔ Keyed m key [] (Texts g) l
  argument-Texts key l =
      argument_iff g processes m path [] key _ (Texts g) l
        (λ v. strings-Each g 0 (key ∷ path) (g.coerce_list v) l)

  argument-RequiredAccount :
      (key : Bytes) (a : Model.CreateAccount)
      → (g.process_arg_field zero_create_account m key (unmarshal_n_create_account g) path ≡ ok a)
        ↔ Keyed m key zero_create_account (RequiredAccount g) a
  argument-RequiredAccount key a =
      argument_iff g processes m path zero_create_account key _ (RequiredAccount g) a
        (λ v. RequiredAccount-iff g (key ∷ path) v a)

  argument-RequiredMint :
      (key : Bytes) (a : Model.Mint)
      → (g.process_arg_field zero_mint m key (unmarshal_n_mint g) path ≡ ok a)
        ↔ Keyed m key zero_mint (RequiredMint g) a
  argument-RequiredMint key a =
      argument_iff g processes m path zero_mint key _ (RequiredMint g) a
        (λ v. RequiredMint-iff g (key ∷ path) v a)

  argument-OptionalMint :
      (key : Bytes) (o : Option Model.Mint)
      → (g.process_arg_field none m key (unmarshal_o_mint g) path ≡ ok o)
        ↔ Keyed m key none (OptionalMint g) o
  argument-OptionalMint key o =
      argument_iff g processes m path none key _ (OptionalMint g) o
        (λ v. OptionalMint-iff g (key ∷ path) v o)

  claims_args_iff :
      (z : List Bytes × Bytes × Option Bool)
      → (field_mutation_claim_rewards_args g path m ≡ ok z) ↔ IsArgumentsOf g m (claims z.0 z.1 z.2)
  unfolding field_mutation_claim_rewards_args
  claims_args_iff z = (
    λ q.
        let (l, e₁, rest₁) = bind-ok _ q in
        let (t, e₂, rest₂) = bind-ok _ rest₁ in
        let (d, e₃, rest₃) = bind-ok _ rest₂ in
        let made : (l, t, d) ≡ z = ok-injective rest₃ in
        rw (← made) (
          (argument-Texts (codes "markets") l).0 e₁,
          (argument-Text g processes m path (codes "msTs") t).0 e₂,
          (argument-Flag g processes m path (codes "dryrun") d).0 e₃,
        ),
    λ is.
        rw
          (
            (argument-Texts (codes "markets") z.0).1 is.0,
            (argument-Text g processes m path (codes "msTs") z.1).1 is.1,
            (argument-Flag g processes m path (codes "dryrun") z.2).1 is.2,
          )
          refl,
  )

  creates_args_iff :
      (z : Model.CreateAccount × Option Model.Mint × Option Bool)
      → (field_mutation_create_account_exec_args g path m ≡ ok z)
        ↔ IsArgumentsOf g m (creates z.0 z.1 z.2)
  unfolding field_mutation_create_account_exec_args
  creates_args_iff z = (
    λ q.
        let (c, e₁, rest₁) = bind-ok _ q in
        let (o, e₂, rest₂) = bind-ok _ rest₁ in
        let (d, e₃, rest₃) = bind-ok _ rest₂ in
        let made : (c, o, d) ≡ z = ok-injective rest₃ in
        rw (← made) (
          (argument-RequiredAccount (codes "createAccount") c).0 e₁,
          (argument-OptionalMint (codes "mint") o).0 e₂,
          (argument-Flag g processes m path (codes "dryrun") d).0 e₃,
        ),
    λ is.
        rw
          (
            (argument-RequiredAccount (codes "createAccount") z.0).1 is.0,
            (argument-OptionalMint (codes "mint") z.1).1 is.1,
            (argument-Flag g processes m path (codes "dryrun") z.2).1 is.2,
          )
          refl,
  )

  mints_args_iff :
      (z : Model.Mint × Option Bool)
      → (field_mutation_ninelives_mint_args g path m ≡ ok z) ↔ IsArgumentsOf g m (mints z.0 z.1)
  unfolding field_mutation_ninelives_mint_args
  mints_args_iff z = (
    λ q.
        let (mint, e₁, rest₁) = bind-ok _ q in
        let (d, e₂, rest₂) = bind-ok _ rest₁ in
        let made : (mint, d) ≡ z = ok-injective rest₂ in
        rw (← made) (
          (argument-RequiredMint (codes "mint") mint).0 e₁,
          (argument-Flag g processes m path (codes "dryrun") d).0 e₂,
        ),
    λ is.
        rw
          (
            (argument-RequiredMint (codes "mint") z.0).1 is.0,
            (argument-Flag g processes m path (codes "dryrun") z.1).1 is.1,
          )
          refl,
  )

  requests_args_iff :
      (z : Bytes × ℤ × ℤ × Bytes × Bytes × Option Bool)
      → (field_mutation_request_secret_args g path m ≡ ok z)
        ↔ IsArgumentsOf g m (requests z.0 z.1 z.2 z.3 z.4 z.5)
  unfolding field_mutation_request_secret_args
  requests_args_iff z = (
    λ q.
        let (eoa, e₁, rest₁) = bind-ok _ q in
        let (nonce, e₂, rest₂) = bind-ok _ rest₁ in
        let (v, e₃, rest₃) = bind-ok _ rest₂ in
        let (sr, e₄, rest₄) = bind-ok _ rest₃ in
        let (ss, e₅, rest₅) = bind-ok _ rest₄ in
        let (d, e₆, rest₆) = bind-ok _ rest₅ in
        let made : (eoa, nonce, v, sr, ss, d) ≡ z = ok-injective rest₆ in
        rw (← made) (
          (argument-Text g processes m path (codes "eoa_addr") eoa).0 e₁,
          (argument-Number g processes m path (codes "nonce") nonce).0 e₂,
          (argument-Number g processes m path (codes "sigV") v).0 e₃,
          (argument-Text g processes m path (codes "sigR") sr).0 e₄,
          (argument-Text g processes m path (codes "sigS") ss).0 e₅,
          (argument-Flag g processes m path (codes "dryrun") d).0 e₆,
        ),
    λ is.
        rw
          (
            (argument-Text g processes m path (codes "eoa_addr") z.0).1 is.0,
            (argument-Number g processes m path (codes "nonce") z.1).1 is.1,
            (argument-Number g processes m path (codes "sigV") z.2).1 is.2,
            (argument-Text g processes m path (codes "sigR") z.3).1 is.3,
            (argument-Text g processes m path (codes "sigS") z.4).1 is.4,
            (argument-Flag g processes m path (codes "dryrun") z.5).1 is.5,
          )
          refl,
  )

  -- For every field that calls a resolver: the map of its arguments is accepted exactly when each
  -- argument is what its key of the map is read as, and the arguments go to the resolver of that name
  -- in their places. An argument whose key is not there is empty, a list is read from what its value
  -- is coerced to, and nil is the empty mint or account where one is required. gqlgen processes an
  -- argument as documented.
  pub arguments_iff :
      (f : Field) → (read_root g (kind_of f) (name_of f) path m ≡ ok (some f)) ↔ IsArgumentsOf g m f
  unfolding read_mutation read_query bytes_eq field_query_eoa_for_address_args
      field_query_has_created_args
  arguments_iff (creates c mint dryrun) =
      made_iff (field_mutation_create_account_exec_args g path m) _ _ (IsArgumentsOf g m)
        (creates c mint dryrun) creates_args_iff (λ z s. s) (λ s. ((c, mint, dryrun), refl, s))
  arguments_iff (requests eoa nonce v sr ss dryrun) =
      made_iff (field_mutation_request_secret_args g path m) _ _ (IsArgumentsOf g m)
        (requests eoa nonce v sr ss dryrun) requests_args_iff (λ z s. s)
        (λ s. ((eoa, nonce, v, sr, ss, dryrun), refl, s))
  arguments_iff (mints mint dryrun) =
      made_iff (field_mutation_ninelives_mint_args g path m) _ _ (IsArgumentsOf g m)
        (mints mint dryrun) mints_args_iff (λ z s. s) (λ s. ((mint, dryrun), refl, s))
  arguments_iff (claims markets ms_ts dryrun) =
      made_iff (field_mutation_claim_rewards_args g path m) _ _ (IsArgumentsOf g m)
        (claims markets ms_ts dryrun) claims_args_iff (λ z s. s)
        (λ s. ((markets, ms_ts, dryrun), refl, s))
  arguments_iff asks_publickey = (λ p. tt, λ s. refl)
  arguments_iff (asks_eoa address) =
      made_iff (field_query_eoa_for_address_args g path m) asks_eoa _ (IsArgumentsOf g m)
        (asks_eoa address) (λ a. argument-Text g processes m path (codes "address") a) (λ z s. s)
        (λ s. (address, refl, s))
  arguments_iff (asks_created address) =
      made_iff (field_query_has_created_args g path m) asks_created _ (IsArgumentsOf g m)
        (asks_created address) (λ a. argument-Text g processes m path (codes "address") a)
        (λ z s. s) (λ s. (address, refl, s))
  arguments_iff asks_statistics = (λ p. tt, λ s. refl)
