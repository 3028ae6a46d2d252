-- ===== src/Types.antt =====
-- lib/types/types.go: the messages of the accounts contract. Arrays are byte strings of their
-- length, pointers are options, and an asset is its number.
use accounts_superposition_s.Prelude.{
  ℕ, Bytes, List, [], Option, none, replicate, IsArray, All, ◌<◌, ◌^◌,
}

pub record Permit : Type 0 where
  pub asset : ℕ
  pub deadline : ℕ
  pub v : ℕ
  pub r : Bytes
  pub s : Bytes

pub record FromArgs : Type 0 where
  pub asset : ℕ
  pub to_take : Bytes
  pub max_unspent : Bytes

pub record SolveArgs : Type 0 where
  pub permit : List Permit
  pub from_args : List FromArgs
  pub target : Bytes
  pub cd : Bytes
  pub ms_ts : Bytes

pub record SolveArgsSigArgs : Type 0 where
  pub sig : Bytes
  pub args : SolveArgs

pub record FreshBackwards : Type 0 where
  pub key : Bytes
  pub eoa_addr : Bytes
  pub v : ℕ
  pub r : Bytes
  pub s : Bytes
  pub solve_args : List SolveArgsSigArgs
  pub authority : Option Bytes

pub record Solve : Type 0 where
  pub args : List SolveArgsSigArgs

pub record SolveV2Args : Type 0 where
  pub args : List SolveArgs
  pub permit_owner : Bytes
  pub transfer_owner : Bytes

pub record SolveV2 : Type 0 where
  pub args : SolveV2Args
  pub sig : Bytes

pub record TransferPermit : Type 0 where
  pub deadline : ℕ
  pub v : ℕ
  pub r : Bytes
  pub s : Bytes

pub record Transfer : Type 0 where
  pub sender : Bytes
  pub asset : ℕ
  pub recipient : Bytes
  pub amt : Bytes
  pub permit : Option TransferPermit

pub record TransferOnlyArgs : Type 0 where
  pub args : List Transfer
  pub ms_ts : Bytes

pub record TransferOnly : Type 0 where
  pub args : TransferOnlyArgs
  pub sig : Bytes

pub record StatementArgs : Type 0 where
  pub msg : Bytes
  pub ms_ts : Bytes

pub record Statement : Type 0 where
  pub args : StatementArgs
  pub sig : Bytes

pub record SolveV3Args : Type 0 where
  pub args : List SolveArgs
  pub gas_token : ℕ
  pub gas_token_amt : ℕ
  pub gas_token_permit : Option Permit

pub record SolveV3 : Type 0 where
  pub args : SolveV3Args
  pub sig : Bytes

-- The variants in the order of the source's `iota` constants.
pub data Variant : Type 0 where
  fresh_backwards solve version authority solve_v2 transfer_only : Variant
  statement owner ed25519_key solve_v3 assets_version : Variant

-- `Version`, `Authority`, `Owner`, `Ed25519Key` and `AssetsVersion` have no fields.
pub record Args : Type 0 where
  pub enum : Variant
  pub fresh_backwards : FreshBackwards
  pub solve : Solve
  pub solve_v2 : SolveV2
  pub transfer_only : TransferOnly
  pub statement : Statement
  pub solve_v3 : SolveV3

-- The zero value of `[n]byte`.
abbrev pub zeros : ℕ → Bytes
zeros n = replicate n 0

abbrev pub zero_fresh : FreshBackwards
zero_fresh = record {
  key = zeros 32;
  eoa_addr = zeros 20;
  v = 0;
  r = zeros 32;
  s = zeros 32;
  solve_args = [];
  authority = none;
}

-- `types.Args{Enum: e}`: every other field is zero.
abbrev pub zero_args : Variant → Args
zero_args e = record {
  enum = e;
  fresh_backwards = zero_fresh;
  solve = record { args = [] };
  solve_v2 = record {
    args = record { args = []; permit_owner = zeros 20; transfer_owner = zeros 20 };
    sig = zeros 64;
  };
  transfer_only = record { args = record { args = []; ms_ts = zeros 16 }; sig = zeros 64 };
  statement = record { args = record { msg = []; ms_ts = zeros 6 }; sig = zeros 64 };
  solve_v3 = record {
    args = record { args = []; gas_token = 0; gas_token_amt = 0; gas_token_permit = none };
    sig = zeros 64;
  };
}

-- The bounds that Go's types give.
pub record IsPermit (p : Permit) : Type 0 where
  pub deadline : p.deadline < 2 ^ 64
  pub v : p.v < 256
  pub r : IsArray 32 p.r
  pub s : IsArray 32 p.s

pub record IsFromArgs (f : FromArgs) : Type 0 where
  pub to_take : IsArray 32 f.to_take
  pub max_unspent : IsArray 32 f.max_unspent

pub record IsSolveArgs (a : SolveArgs) : Type 0 where
  pub permit : All IsPermit a.permit
  pub from_args : All IsFromArgs a.from_args
  pub target : IsArray 20 a.target
  pub ms_ts : IsArray 16 a.ms_ts
