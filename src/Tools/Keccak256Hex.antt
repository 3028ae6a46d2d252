-- ===== src/Tools/Keccak256Hex.antt =====
-- tools/keccak256-hex/main.go: the hash of the bytes that a line of hex digits stands for.
use accounts_superposition_s.Prelude.{Bytes}
use accounts_superposition_s.Outcome.{Outcome, ok, ◌>>=◌}
use accounts_superposition_s.Go.{hex_decode_string, hex_encode}
use accounts_superposition_s.World.{Reply, outcome, Externals}
use accounts_superposition_s.Tools.Command.{must}

-- The argument is what `ReadLine` answers.
unfoldable pub keccak256_hex : Externals → Reply Bytes → Outcome Bytes
keccak256_hex x line = do
  l ← must (outcome line)
  b ← must (hex_decode_string l)
  ok (hex_encode (x.keccak256 b))
