-- ===== src/Model.antt =====
-- graph/model/models_gen.go: what the GraphQL requests carry. An `int32` is an integer.
pub mod Asset
use accounts_superposition_s.Prelude.{◌<◌, ◌^◌, Bytes, List, Option, ℤ, pos, negsuc}

-- the range of int32
abbrev pub IsInt32 : ℤ → Type 0
IsInt32 (pos n) = n < 2 ^ 31
IsInt32 (negsuc n) = n < 2 ^ 31

pub record CreateAccount : Type 0 where
  pub eoa_addr : Bytes
  pub sig_v : ℤ
  pub sig_r : Bytes
  pub sig_s : Bytes
  pub authority : Option Bytes

pub record CreateAccountExec : Type 0 where
  pub hash : Bytes
  pub secret : Bytes

pub record Permit : Type 0 where
  pub deadline : ℤ
  pub permit_v : ℤ
  pub permit_r : Bytes
  pub permit_s : Bytes

pub record Mint : Type 0 where
  pub market : Bytes
  pub outcome : Bytes
  pub amount : Bytes
  pub permit : Option Permit
  pub referrer : Bytes
  pub ms_ts : Bytes

pub record FlorinOpenPositionResult : Type 0 where
  pub hash : Bytes

pub record FromArgs : Type 0 where
  pub token : Bytes
  pub to_take : Bytes
  pub max_unspent : Bytes

pub record SolveArgs : Type 0 where
  pub permit : List Permit
  pub from_args : List FromArgs
  pub target : Bytes
  pub cd : Bytes
  pub ms_ts : Bytes
