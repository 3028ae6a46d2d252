-- ===== src/Tests/Secrets.antt =====
-- Requests for a secret.
use accounts_superposition_s.Prelude.{
  ◌≡◌, refl, arith, Bytes, codes, [], true, none, pos, IsArray, bytes_eq,
}
use accounts_superposition_s.Outcome.{ok}
use accounts_superposition_s.Exec.{
  pure, raise, crash, lift, ask, ◌>>=◌, refuse_if, when, on_error, wrap,
}
use accounts_superposition_s.Go.{
  copy, hex_encode, hex_digit, hex_decode_string, decode_pair, hex_value, set_bytes,
}
use accounts_superposition_s.Client.{call}
use accounts_superposition_s.Graph.Resolver.{is_dryrun, secp_max_s, checked_secret, make_secret}
use accounts_superposition_s.Graph.Account.{recovery_id, insert, check_code, request_secret}
use accounts_superposition_s.Graph.Secrets.{IsSignedBy, request_secret_sound}
use accounts_superposition_s.Graph.Nonces.{secret_preimage_injective}
use accounts_superposition_s.Tests.Fixture.{
  node, config, nobody, service_key, user, user_text, word_text,
}

abbrev new_secret : Bytes
new_secret = codes "abababababababababababababababababababababababababababababababab"

secret_returned :
    (request_secret node config nobody user_text (pos 5) (pos 27) word_text word_text none []).0
    ≡ ok new_secret
unfolding request_secret pure raise crash lift ask ◌>>=◌ refuse_if when on_error wrap copy
    hex_encode hex_digit hex_decode_string decode_pair hex_value set_bytes call is_dryrun secp_max_s
    checked_secret make_secret recovery_id insert check_code bytes_eq
secret_returned = refl

request_secret_sound_example :
    (node.is_hex_address user_text ≡ true)
    × IsSignedBy node service_key user (pos 5) (pos 27) word_text word_text
request_secret_sound_example =
    request_secret_sound node config nobody user_text (pos 5) (pos 27) word_text word_text none []
      new_secret secret_returned

IsArray-key : IsArray 32 service_key
IsArray-key = record { size = refl; bytes = omega arith }

secret_preimage_injective_example : (service_key ≡ service_key) × (pos 5 ≡ pos 5)
secret_preimage_injective_example =
    secret_preimage_injective service_key service_key (pos 5) (pos 5) IsArray-key IsArray-key
      (omega arith) (omega arith) refl
