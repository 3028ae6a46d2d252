-- ===== src/System/Arguments/Maps.antt =====
-- Which arguments a field has.
use accounts_superposition_s.Prelude.{
  ◌≡◌, Bytes, codes, List, [], ◌∷◌, Bool, Option, none, some, pos,
}
use accounts_superposition_s.World.{answer}
use accounts_superposition_s.Model
use accounts_superposition_s.Graph.Inputs.{
  Raw, null, object, scalar, RawMap, zero_mint, zero_create_account, at_key,
}
use accounts_superposition_s.Graph.Inputs.Keys.{Keyed, Text, Number, IsMintMap, IsAccountMap}
use accounts_superposition_s.Outcome.{Outcome}
use accounts_superposition_s.System.Requests.{
  Field, creates, requests, mints, claims, asks_publickey, asks_eoa, asks_created, asks_statistics,
}
use accounts_superposition_s.System.Arguments.{Runtime}

-- The two kinds of an operation.
pub data Kind : Type 0 where
  mutation : Kind
  query : Kind

abbrev pub kind_of : Field → Kind
kind_of (creates c mint dryrun) = mutation
kind_of (requests eoa nonce v sr ss dryrun) = mutation
kind_of (mints mint dryrun) = mutation
kind_of (claims markets ms_ts dryrun) = mutation
kind_of asks_publickey = query
kind_of (asks_eoa address) = query
kind_of (asks_created address) = query
kind_of asks_statistics = query

abbrev pub name_of : Field → Bytes
name_of (creates c mint dryrun) = codes "createAccountExec"
name_of (requests eoa nonce v sr ss dryrun) = codes "requestSecret"
name_of (mints mint dryrun) = codes "ninelivesMint"
name_of (claims markets ms_ts dryrun) = codes "claimRewards"
name_of asks_publickey = codes "publickey"
name_of (asks_eoa address) = codes "eoaForAddress"
name_of (asks_created address) = codes "hasCreated"
name_of asks_statistics = codes "statistics"

module _ (g : Runtime) where
  -- `ProcessArgField`: the zero value for a key that is not there, and else what the function gives
  -- for the value, with the key on the path.
  abbrev pub ProcessesArguments : Type 1
  ProcessesArguments =
      (A : Type 0) (zero : A) (m : RawMap) (key : Bytes) (f : List Bytes → Raw → Outcome A)
      (path : List Bytes)
      → g.process_arg_field zero m key f path ≡ at_key m key zero f path

  -- nil is no flag
  abbrev pub Flag : Raw → Option Bool → Type 0
  Flag null o = none ≡ o
  Flag v o = (b : Bool) × (some b ≡ o) × (g.unmarshal_boolean v ≡ answer b)

  abbrev pub Each : List Raw → List Bytes → Type 0
  Each [] [] = Unit
  Each (v ∷ vs) (s ∷ l) = Text g.coercion v s × Each vs l
  Each _ _ = ⊥

  abbrev pub Texts : Raw → List Bytes → Type 0
  Texts v l = Each (g.coerce_list v) l

  -- nil is the empty mint
  abbrev pub RequiredMint : Raw → Model.Mint → Type 0
  RequiredMint null mint = zero_mint ≡ mint
  RequiredMint (scalar s) mint = ⊥
  RequiredMint (object m) mint = IsMintMap g.coercion m mint

  -- nil is no mint
  abbrev pub OptionalMint : Raw → Option Model.Mint → Type 0
  OptionalMint null o = none ≡ o
  OptionalMint (scalar s) o = ⊥
  OptionalMint (object m) o = (mint : Model.Mint) × (some mint ≡ o) × IsMintMap g.coercion m mint

  abbrev pub RequiredAccount : Raw → Model.CreateAccount → Type 0
  RequiredAccount null a = zero_create_account ≡ a
  RequiredAccount (scalar s) a = ⊥
  RequiredAccount (object m) a = IsAccountMap g.coercion m a

  -- Each argument of the field is what its key of the map is read as.
  abbrev pub IsArgumentsOf : RawMap → Field → Type 0
  IsArgumentsOf m (creates c mint dryrun) =
      Keyed m (codes "createAccount") zero_create_account RequiredAccount c
      × Keyed m (codes "mint") none OptionalMint mint
      × Keyed m (codes "dryrun") none Flag dryrun
  IsArgumentsOf m (requests eoa nonce v sr ss dryrun) =
      Keyed m (codes "eoa_addr") [] (Text g.coercion) eoa
      × Keyed m (codes "nonce") (pos 0) (Number g.coercion) nonce
      × Keyed m (codes "sigV") (pos 0) (Number g.coercion) v
      × Keyed m (codes "sigR") [] (Text g.coercion) sr
      × Keyed m (codes "sigS") [] (Text g.coercion) ss
      × Keyed m (codes "dryrun") none Flag dryrun
  IsArgumentsOf m (mints mint dryrun) =
      Keyed m (codes "mint") zero_mint RequiredMint mint × Keyed m (codes "dryrun") none Flag dryrun
  IsArgumentsOf m (claims markets ms_ts dryrun) =
      Keyed m (codes "markets") [] Texts markets
      × Keyed m (codes "msTs") [] (Text g.coercion) ms_ts
      × Keyed m (codes "dryrun") none Flag dryrun
  IsArgumentsOf m asks_publickey = Unit
  IsArgumentsOf m (asks_eoa address) = Keyed m (codes "address") [] (Text g.coercion) address
  IsArgumentsOf m (asks_created address) = Keyed m (codes "address") [] (Text g.coercion) address
  IsArgumentsOf m asks_statistics = Unit
