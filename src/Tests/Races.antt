-- ===== src/Tests/Races.antt =====
-- Two requests for a secret with one signature, at the same time.
use accounts_superposition_s.Prelude.{
  ◌≡◌, ◌≢◌, ◌&&◌, ◌==◌, refl, length, Bytes, codes, [], ◌∷◌, none, pos, false, bytes_eq, ℕ,
  if◌then◌else◌,
}
use accounts_superposition_s.Outcome.{ok}
use accounts_superposition_s.Exec.{
  pure, raise, crash, lift, ask, ◌>>=◌, refuse_if, when, on_error, wrap,
}
use accounts_superposition_s.Go.{
  copy, hex_encode, hex_digit, hex_decode_string, decode_pair, hex_value, set_bytes, to_lower,
  lower,
}
use accounts_superposition_s.World.{Event, code_at, rand_read, insert_nonce_secret, History}
use accounts_superposition_s.ClientAddr.{get_client_addr}
use accounts_superposition_s.Client.{call}
use accounts_superposition_s.Database.{exec_on, count_on}
use accounts_superposition_s.Graph.Resolver.{is_dryrun, secp_max_s, checked_secret, make_secret}
use accounts_superposition_s.Graph.Account.{recovery_id, insert, check_code, request_secret}
use accounts_superposition_s.Concurrent.{through, Shared, everything, own, IsInterleaving}
use accounts_superposition_s.Concurrent.Replay.{request_secret-no_race}
use accounts_superposition_s.Tests.Fixture.{config, nobody, user, factory, user_text, word_text}
use accounts_superposition_s.Tests.Ledger.{database, printing_node, ledger}

abbrev secret : Bytes
secret = codes "abababababababababababababababababababababababababababababababab"

-- The moment at which handler `i` had asked `h`.
abbrev moment : Shared → ℕ → History → History
moment [] i h = []
moment ((j, e) ∷ g) i h =
    let rest = moment g i h in if i == j && length (own i g) == length h then everything g else rest

abbrev looks : Event
looks = code_at (get_client_addr printing_node factory user)

abbrev stores : Event
stores = insert_nonce_secret user_text secret (pos 5)

abbrev both : Shared
both =
    (1, stores) ∷ (0, stores) ∷ (1, rand_read 32) ∷ (0, rand_read 32) ∷ (1, looks) ∷ (0, looks) ∷ []

both-IsInterleaving : IsInterleaving (moment both) both
unfolding own everything
both-IsInterleaving = (refl, (refl, (refl, (refl, (refl, (refl, tt))))))

zero_not_one : ◌≢◌ {A = ℕ} 0 1
zero_not_one e = cc (e)

is_wet : is_dryrun none ≡ false
unfolding is_dryrun
is_wet = refl

first_whole :
    own 0 both
    ≡ (request_secret
        (through (moment both 0) ledger)
        config
        nobody
        user_text
        (pos 5)
        (pos 27)
        word_text
        word_text
        none
        []).1
unfolding own everything to_lower lower exec_on request_secret pure raise crash lift ask ◌>>=◌
    refuse_if when on_error wrap copy hex_encode hex_digit hex_decode_string decode_pair hex_value
    set_bytes call is_dryrun secp_max_s checked_secret make_secret recovery_id insert check_code
    bytes_eq get_client_addr count_on
first_whole = refl

second_whole :
    own 1 both
    ≡ (request_secret
        (through (moment both 1) ledger)
        config
        nobody
        user_text
        (pos 5)
        (pos 28)
        word_text
        word_text
        none
        []).1
unfolding own everything to_lower lower exec_on request_secret pure raise crash lift ask ◌>>=◌
    refuse_if when on_error wrap copy hex_encode hex_digit hex_decode_string decode_pair hex_value
    set_bytes call is_dryrun secp_max_s checked_secret make_secret recovery_id insert check_code
    bytes_eq get_client_addr count_on
second_whole = refl

first_served :
    (request_secret
      (through (moment both 0) ledger)
      config
      nobody
      user_text
      (pos 5)
      (pos 27)
      word_text
      word_text
      none
      []).0
    ≡ ok secret
unfolding own everything to_lower lower exec_on request_secret pure raise crash lift ask ◌>>=◌
    refuse_if when on_error wrap copy hex_encode hex_digit hex_decode_string decode_pair hex_value
    set_bytes call is_dryrun secp_max_s checked_secret make_secret recovery_id insert check_code
    bytes_eq get_client_addr count_on
first_served = refl

request_secret-no_race_example :
    (request_secret
      (through (moment both 1) ledger)
      config
      nobody
      user_text
      (pos 5)
      (pos 28)
      word_text
      word_text
      none
      []).0
    ≢ ok secret
request_secret-no_race_example =
    request_secret-no_race printing_node database config (moment both) both nobody nobody 0 1
      user_text user_text (pos 5) (pos 27) (pos 28) word_text word_text word_text word_text none
      none secret secret both-IsInterleaving zero_not_one is_wet is_wet refl first_whole
      second_whole first_served
