-- ===== src/ClientAddr.antt =====
-- lib/types/proxy.go: the CREATE2 address of an account.
pub mod Preimage
use accounts_superposition_s.Prelude.{ℕ, ◌+◌, Bytes, codes, [], ◌∷◌, ◌++◌, take, drop}
use accounts_superposition_s.Outcome.{Outcome, ok, err, panic, fatal}
use accounts_superposition_s.Go.{copy, hex_decode_string}
use accounts_superposition_s.Types.{zeros}
use accounts_superposition_s.World.{Externals}

-- `b, _ := hex.DecodeString(s)` of a constant
abbrev decoded : Outcome Bytes → Bytes
decoded (ok b) = b
decoded (err e) = zeros 0
decoded panic = zeros 0
decoded (fatal e) = zeros 0

unfoldable pub code_before : Bytes
unfolding hex_decode_string
code_before = decoded (
    hex_decode_string
      (codes "60738060093d393df35f3560e01c638fd3ab801461001357610036565b60205f5f5f73"))

unfoldable pub code_after : Bytes
unfolding hex_decode_string
code_after = decoded (
    hex_decode_string (
      codes
        "5afa5f51610059565b7f360894a13ba1a3210667c828492db98dca3e2076cc3735a920a3ca505d382bbc545b365f5f375f365f5f935af43d5f5f3e3d5f8261007157fd5bf3"))

-- `copy(d[lo:], src)` with room for all of `src`
abbrev pub put : ℕ → Bytes → Bytes → Bytes
put lo d src = take lo d ++ copy (drop lo d) src

module _ (x : Externals) where
  unfoldable pub make_metamorphic_beacon_proxy_hash : Bytes → Bytes
  make_metamorphic_beacon_proxy_hash factory = x.keccak256 (code_before ++ factory ++ code_after)

  -- the 85 bytes that are hashed; `copy(d[lo:hi], src)` stops at `hi`
  unfoldable pub create2_preimage : Bytes → Bytes → Bytes
  unfolding make_metamorphic_beacon_proxy_hash
  create2_preimage factory eoa =
      let d0 = zeros (1 + 20 + 32 + 32) in
      let d1 = put 0 d0 (0xff ∷ []) in
      let d2 = put 1 d1 (take 20 factory) in
      let d3 = put 21 d2 (take 32 (x.keccak256 eoa)) in
      put 53 d3 (take 32 (make_metamorphic_beacon_proxy_hash factory))

  unfoldable pub get_client_addr : Bytes → Bytes → Bytes
  unfolding create2_preimage
  get_client_addr factory eoa =
      x.bytes_to_address (drop 12 (x.keccak256 (create2_preimage factory eoa)))
