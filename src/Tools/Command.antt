-- ===== src/Tools/Command.antt =====
-- What the command line programs share.
use accounts_superposition_s.Prelude.{
  ℕ, zero, suc, Bytes, List, [], ◌∷◌, Option, none, some, take, drop, ℤ,
}
use accounts_superposition_s.Outcome.{Outcome, ok, err, panic, fatal, ◌>>=◌}
use accounts_superposition_s.Go.{hex_encode}
use accounts_superposition_s.World.{Reply}

-- `os.Args[n]`, where an index out of range panics
unfoldable pub argument : ℕ → List Bytes → Outcome Bytes
argument n [] = panic
argument zero (a ∷ args) = ok a
argument (suc n) (a ∷ args) = argument n args

-- `if err != nil { panic(err) }`
abbrev pub must {ℓ} : {A : Type ℓ} → Outcome A → Outcome A
must (ok a) = ok a
must (err e) = panic
must panic = panic
must (fatal e) = fatal e

-- `if !ok { panic("…") }`
abbrev pub must_some {ℓ} : {A : Type ℓ} → Option A → Outcome A
must_some none = panic
must_some (some a) = ok a

-- What the programs use of go-ethereum and the server does not: `Sign` of a digest with a key,
-- `Keccak256` and `Keccak256Hash(…).Bytes()` of several texts, `BigToHash(…).Bytes()` and `MaxHash`.
pub record Tooling : Type 0 where
  pub sign : Bytes → Bytes → Reply Bytes
  pub keccak256_all : List Bytes → Bytes
  pub keccak256_hash : List Bytes → Bytes
  pub big_to_hash : ℤ → Bytes
  pub max_hash : Bytes

-- The object that is printed as JSON.
pub record Printed : Type 0 where
  pub v : ℕ
  pub r : Bytes
  pub s : Bytes

-- `sig[64]`
unfoldable pub last_byte : Bytes → Outcome ℕ
last_byte [] = panic
last_byte (v ∷ _) = ok v

-- The object of a signature: its first 32 bytes and the next 32 in hex, and byte 64 as the program
-- changes it. A signature that is too short panics.
unfoldable pub printed : (ℕ → ℕ) → Bytes → Outcome Printed
unfolding last_byte
printed change sig = do
  v ← last_byte (drop 64 sig)
  ok (record { v = change v; r = hex_encode (take 32 sig); s = hex_encode (take 32 (drop 32 sig)) })
