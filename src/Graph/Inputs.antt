-- ===== src/Graph/Inputs.antt =====
-- graph/generated.go: how the inputs of a request are read from maps, key by key.
pub mod Keys
pub mod Read
use accounts_superposition_s.Prelude.{
  Bytes, codes, List, bytes_eq, if◌then◌else◌, [], ◌∷◌, Option, none, some, ℤ, pos,
}
use accounts_superposition_s.Outcome.{Error, bytes, Outcome, ok, err, panic, ◌>>=◌}
use accounts_superposition_s.World.{Reply, answer, failed}
use accounts_superposition_s.Model

mutual
  -- A value of Go's `any`: nil, a map, or something else.
  pub data Raw : Type 0 where
    null : Raw
    object : RawMap → Raw
    scalar : Bytes → Raw

  pub data RawMap : Type 0 where
    empty : RawMap
    entry : Bytes → Raw → RawMap → RawMap

-- `asMap[k]`, if the key is there
unfoldable pub value_at : RawMap → Bytes → Option Raw
value_at empty key = none
value_at (entry k v m) key = if bytes_eq k key then some v else value_at m key

-- What is used of gqlgen: `UnmarshalString`, `UnmarshalInt32`, and `ErrorOnPath` at the path of the
-- context, the innermost key first.
pub record Coercion : Type 0 where
  pub unmarshal_string : Raw → Reply Bytes
  pub unmarshal_int32 : Raw → Reply ℤ
  pub error_on_path : List Bytes → Error → Error

abbrev pub zero_permit : Model.Permit
zero_permit = record { deadline = pos 0; permit_v = pos 0; permit_r = []; permit_s = [] }

abbrev pub zero_mint : Model.Mint
zero_mint = record {
  market = [];
  outcome = [];
  amount = [];
  permit = none;
  referrer = [];
  ms_ts = [];
}

abbrev pub zero_create_account : Model.CreateAccount
zero_create_account = record {
  eoa_addr = [];
  sig_v = pos 0;
  sig_r = [];
  sig_s = [];
  authority = none;
}

abbrev pub read_value : {A : Type 0} → A → (Raw → Outcome A) → Option Raw → Outcome A
read_value zero unmarshal none = ok zero
read_value zero unmarshal (some v) = unmarshal v

-- One key of the loop: `if !ok { continue }` leaves the zero value, and an error ends the loop.
unfoldable pub at_key :
    {A : Type 0} → RawMap → Bytes → A → (List Bytes → Raw → Outcome A) → List Bytes → Outcome A
unfolding value_at
at_key m key zero unmarshal path = read_value zero (unmarshal (key ∷ path)) (value_at m key)

module _ (c : Coercion) where
  abbrev pub on_path : {A : Type 0} → List Bytes → Outcome A → Outcome A
  on_path path (err e) = err (c.error_on_path path e)
  on_path path o = o

  abbrev pub replied : {A : Type 0} → List Bytes → Reply A → Outcome A
  replied path (answer a) = ok a
  replied path (failed e) = err (c.error_on_path path (bytes e))

  abbrev pub unmarshal_n_string : List Bytes → Raw → Outcome Bytes
  unmarshal_n_string path v = replied path (c.unmarshal_string v)

  abbrev pub unmarshal_n_int : List Bytes → Raw → Outcome ℤ
  unmarshal_n_int path v = replied path (c.unmarshal_int32 v)

  unfoldable pub unmarshal_o_string : List Bytes → Raw → Outcome (Option Bytes)
  unmarshal_o_string path null = ok none
  unmarshal_o_string path v = do s ← unmarshal_n_string path v; ok (some s)

  unfoldable pub unmarshal_input_permit : List Bytes → Raw → Outcome Model.Permit
  unfolding at_key
  unmarshal_input_permit path null = ok zero_permit
  unmarshal_input_permit path (scalar s) = panic
  unmarshal_input_permit path (object m) = do
    deadline ← at_key m (codes "deadline") (pos 0) unmarshal_n_int path
    permit_v ← at_key m (codes "permitV") (pos 0) unmarshal_n_int path
    permit_r ← at_key m (codes "permitR") [] unmarshal_n_string path
    permit_s ← at_key m (codes "permitS") [] unmarshal_n_string path
    ok (record {
      deadline = deadline;
      permit_v = permit_v;
      permit_r = permit_r;
      permit_s = permit_s;
    })

  unfoldable pub unmarshal_o_permit : List Bytes → Raw → Outcome (Option Model.Permit)
  unfolding unmarshal_input_permit
  unmarshal_o_permit path null = ok none
  unmarshal_o_permit path v = do p ← on_path path (unmarshal_input_permit path v); ok (some p)

  unfoldable pub unmarshal_input_mint : List Bytes → Raw → Outcome Model.Mint
  unfolding at_key unmarshal_o_permit
  unmarshal_input_mint path null = ok zero_mint
  unmarshal_input_mint path (scalar s) = panic
  unmarshal_input_mint path (object m) = do
    market ← at_key m (codes "market") [] unmarshal_n_string path
    out ← at_key m (codes "outcome") [] unmarshal_n_string path
    amount ← at_key m (codes "amount") [] unmarshal_n_string path
    permit ← at_key m (codes "permit") none unmarshal_o_permit path
    referrer ← at_key m (codes "referrer") [] unmarshal_n_string path
    ms_ts ← at_key m (codes "ms_ts") [] unmarshal_n_string path
    ok (record {
      market = market;
      outcome = out;
      amount = amount;
      permit = permit;
      referrer = referrer;
      ms_ts = ms_ts;
    })

  unfoldable pub unmarshal_input_create_account : List Bytes → Raw → Outcome Model.CreateAccount
  unfolding at_key unmarshal_o_string
  unmarshal_input_create_account path null = ok zero_create_account
  unmarshal_input_create_account path (scalar s) = panic
  unmarshal_input_create_account path (object m) = do
    eoa_addr ← at_key m (codes "eoa_addr") [] unmarshal_n_string path
    sig_v ← at_key m (codes "sigV") (pos 0) unmarshal_n_int path
    sig_r ← at_key m (codes "sigR") [] unmarshal_n_string path
    sig_s ← at_key m (codes "sigS") [] unmarshal_n_string path
    authority ← at_key m (codes "authority") none unmarshal_o_string path
    ok (record {
      eoa_addr = eoa_addr;
      sig_v = sig_v;
      sig_r = sig_r;
      sig_s = sig_s;
      authority = authority;
    })
