-- ===== src/Go/Copy.antt =====
-- The builtin `copy`, into an array and into a slice of it.
use accounts_superposition_s.Prelude.{
  ℕ, Bytes, [], ◌∷◌, ◌++◌, length, take, drop, ltb, if◌then◌else◌,
}
use accounts_superposition_s.Outcome.{Outcome, ok, panic}

-- `copy(dst[:], src)`: as many bytes as both have
unfoldable pub copy : Bytes → Bytes → Bytes
copy [] src = []
copy (d ∷ dst) [] = d ∷ dst
copy (d ∷ dst) (s ∷ src) = s ∷ copy dst src

-- `copy(dst[i:], src)`: slicing past the end panics
unfoldable pub copy_from : ℕ → Bytes → Bytes → Outcome Bytes
copy_from i dst src = if ltb (length dst) i then panic else ok (take i dst ++ copy (drop i dst) src)
