-- ===== src/Tools/SignStdin.antt =====
-- tools/sign-stdin/main.go: a wallet's signature of the text that is read.
pub mod Accepted
use accounts_superposition_s.Prelude.{ℕ, ◌+◌, ◌%◌, ◌^◌, Bytes, codes, List, ◌∷◌, ◌++◌, length}
use accounts_superposition_s.Outcome.{Outcome, ok, ◌>>=◌}
use accounts_superposition_s.Go.{trim_prefix, itoa}
use accounts_superposition_s.World.{Reply, outcome, Externals}
use accounts_superposition_s.Tools.Command.{argument, must, Tooling, Printed, printed}

-- The text behind its header, which ends in the text's length.
unfoldable pub preimage_of : Bytes → Bytes
preimage_of text = (25 ∷ codes "Ethereum Signed Message:\n") ++ itoa (length text) ++ text

-- `s[64] + 27`, of a byte
abbrev pub plus_27 : ℕ → ℕ
plus_27 v = (v + 27) % 2 ^ 8

unfoldable pub sign_stdin : Externals → Tooling → List Bytes → Reply Bytes → Outcome Printed
unfolding argument printed preimage_of
sign_stdin x t args stdin = do
  a ← argument 1 args
  p ← must (outcome (x.hex_to_ecdsa (trim_prefix a (codes "0x"))))
  text ← must (outcome stdin)
  let d = x.keccak256 (preimage_of text)
  sig ← must (outcome (t.sign d p))
  printed plus_27 sig
