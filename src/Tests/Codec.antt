-- ===== src/Tests/Codec.antt =====
-- Texts, amounts, calldata and addresses.
use accounts_superposition_s.Prelude.{
  ◌^◌, ◌≡◌, refl, arith, Bytes, codes, [], ◌∷◌, ◌++◌, some, length, pos, IsArray,
}
use accounts_superposition_s.Outcome.{ok}
use accounts_superposition_s.Go.{hex_encode, set_string, set_bytes}
use accounts_superposition_s.Types.{zeros}
use accounts_superposition_s.ClientAddr.{make_metamorphic_beacon_proxy_hash, create2_preimage}
use accounts_superposition_s.ClientAddr.Preimage.{create2_preimage_lem}
use accounts_superposition_s.Convertor.{str_to_bytes, amount_bytes, ms_ts_left}
use accounts_superposition_s.Convertor.DecodeLaws.{fitted, str_to_bytes-hex_encode}
use accounts_superposition_s.Convertor.AmountLaws.{amount_bytes_small, ms_ts_left_collides}
use accounts_superposition_s.Ninelives.{unpack_mint}
use accounts_superposition_s.Ninelives.Unpack.{packed, unpack_mint-packed}
use accounts_superposition_s.Tests.Fixture.{user, factory, node}

str_to_bytes-hex_encode_example :
    (str_to_bytes 2 (hex_encode (1 ∷ 254 ∷ [])) ≡ fitted 2 (1 ∷ 254 ∷ []))
    × (str_to_bytes 2 (codes "0x" ++ hex_encode (1 ∷ 254 ∷ [])) ≡ fitted 2 (1 ∷ 254 ∷ []))
str_to_bytes-hex_encode_example = str_to_bytes-hex_encode 2 (1 ∷ 254 ∷ []) (omega arith)

thousand_read : set_string (codes "1000") ≡ some (pos 1000)
unfolding set_string
thousand_read = refl

amount_bytes_small_example :
    (a : Bytes) × (amount_bytes (codes "1000") ≡ ok a) × IsArray 32 a × (set_bytes a ≡ 1000)
amount_bytes_small_example =
    amount_bytes_small (codes "1000") (pos 1000) thousand_read (omega arith)

-- 10 ^ 78
abbrev huge_text : Bytes
huge_text = codes "1000000000000000000000000000000000000000000000000000000000000000000000000000000"

huge_read : set_string huge_text ≡ some (pos (10 ^ 78))
unfolding set_string
huge_read = refl

shifted_read : set_string (codes "256000") ≡ some (pos 256000)
unfolding set_string
shifted_read = refl

ms_ts_left_collides_example : ms_ts_left (codes "1000") ≡ ms_ts_left (codes "256000")
ms_ts_left_collides_example =
    ms_ts_left_collides (codes "1000") (codes "256000") 1000 (pos 1000) (pos 256000) thousand_read
      shifted_read refl refl (omega arith) (omega arith)

abbrev mint_calldata : Bytes
mint_calldata = packed (zeros 4) (zeros 8) (zeros 32) user factory

unpack_mint-packed_example :
    unpack_mint mint_calldata
    ≡ ok (record { outcome = zeros 8; value = zeros 32; referrer = zeros 20; recipient = zeros 20 })
unpack_mint-packed_example =
    unpack_mint-packed (zeros 4) (zeros 8) (zeros 32) user factory refl refl refl refl refl

code_hashed : length (make_metamorphic_beacon_proxy_hash node factory) ≡ 32
unfolding make_metamorphic_beacon_proxy_hash
code_hashed = refl

create2_preimage_lem_example :
    create2_preimage node factory user
    ≡ 0xff ∷ (factory ++ (node.keccak256 user ++ make_metamorphic_beacon_proxy_hash node factory))
create2_preimage_lem_example = create2_preimage_lem node factory user refl refl code_hashed
