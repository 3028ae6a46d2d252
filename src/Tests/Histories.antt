-- ===== src/Tests/Histories.antt =====
-- One user opens an account and comes back with the secret; another replays a signature.
use accounts_superposition_s.Prelude.{
  ◌≡◌, ◌≢◌, ◌+◌, ◌*◌, ◌≤◌, length, refl, Bytes, codes, [], ◌∷◌, ◌++◌, false, none, some, pos,
  bytes_eq,
}
use accounts_superposition_s.Outcome.{ok}
use accounts_superposition_s.Exec.{
  pure, raise, crash, exit, lift, ask, ◌>>=◌, refuse_if, when, on_error, wrap,
}
use accounts_superposition_s.Exec.Once.{count}
use accounts_superposition_s.Exec.Emits.{same}
use accounts_superposition_s.Go.{
  copy, copy_from, hex_encode, hex_digit, hex_decode, hex_decode_string, decode_pair, hex_value,
  set_bytes, trim_prefix, has_prefix, split_on, to_lower, lower,
}
use accounts_superposition_s.World.{Event, History}
use accounts_superposition_s.Events.{is_send}
use accounts_superposition_s.Convertor.{
  str_to_bytes, str_to_addr, checked_v, create_account_to_fresh_backwards,
  create_account_to_fresh_backwards_graph, authority_addr,
}
use accounts_superposition_s.Client.{call, known_fee, routed, deliver, send, send_arguments}
use accounts_superposition_s.Db.{some_row, pick_private_key}
use accounts_superposition_s.Graph.Resolver.{
  is_dryrun, track_tx, secp_max_s, checked_secret, make_secret,
}
use accounts_superposition_s.Graph.Account.{
  recovery_id, tag_mint, insert, check_code, create_account_exec, request_secret,
}
use accounts_superposition_s.Server.Auth.{
  Request, serve, cors_headers, check_secret, check_bearer, authorize, serve_http,
}
use accounts_superposition_s.System.Provenance.{Justified}
use accounts_superposition_s.System.Requests.{
  Arrival, creates, resolve, resolve_all, handle, history_of,
}
use accounts_superposition_s.System.Invariant.{Requested, history_of-Justified}
use accounts_superposition_s.Exec.Grown.{Each}
use accounts_superposition_s.System.Calls.{handle-length}
use accounts_superposition_s.System.Sends.{handle-sends}
use accounts_superposition_s.System.Owners.{IsOwned}
use accounts_superposition_s.Database.Owners.{connected-authed-IsOwned}
use accounts_superposition_s.System.Replay.{request_secret-no_replay}
use accounts_superposition_s.Tests.Fixture.{
  config, nobody, known_user, new_account, user_text, word_text,
}
use accounts_superposition_s.Database.{exec_on, count_on}
use accounts_superposition_s.Go.{with_margin}
use accounts_superposition_s.Tests.Ledger.{
  database, printing_node, ledger, ledger-ReadsBack, ledger-PrintsTrimmed, ledger-UniqueNonces,
}

abbrev secret : Bytes
secret = codes "abababababababababababababababababababababababababababababababab"

abbrev opening : Arrival
opening = record {
  snowflake = 0;
  request = record { origin = []; is_options = false; authorization = [] };
  fields = creates new_account none none ∷ [];
}

abbrev returning : Request
returning = record {
  origin = [];
  is_options = false;
  authorization = user_text ++ codes ":" ++ secret;
}

returning_served :
    (serve_http ledger
      (codes "admin")
      1
      returning
      (history_of ledger config (codes "admin") (opening ∷ []))).0
    ≡ ok ([], serve known_user)
unfolding with_margin exec_on count_on serve_http authorize check_bearer check_secret cors_headers
    history_of handle resolve_all resolve create_account_exec tag_mint insert pure raise crash exit
    lift ask ◌>>=◌ refuse_if when on_error wrap copy copy_from hex_encode hex_digit hex_decode
    hex_decode_string decode_pair hex_value set_bytes trim_prefix has_prefix split_on to_lower lower
    str_to_bytes str_to_addr checked_v create_account_to_fresh_backwards
    create_account_to_fresh_backwards_graph authority_addr call known_fee routed deliver send
    send_arguments some_row pick_private_key is_dryrun track_tx checked_secret make_secret bytes_eq
returning_served = refl

connected-authed-IsOwned_example :
    (eoa : Bytes) × (known_user.eoa ≡ some eoa)
    × IsOwned ledger config
        (opening ∷ [])
        (history_of ledger config (codes "admin") (opening ∷ []))
        eoa
connected-authed-IsOwned_example =
    connected-authed-IsOwned printing_node database config (codes "admin") (opening ∷ []) 1
      returning [] known_user (refl, tt) ledger-ReadsBack ledger-PrintsTrimmed returning_served refl

secret_returned :
    (request_secret ledger config nobody user_text (pos 5) (pos 27) word_text word_text none []).0
    ≡ ok secret
unfolding to_lower exec_on request_secret pure raise crash lift ask ◌>>=◌ refuse_if when on_error
    wrap copy hex_encode hex_digit hex_decode_string decode_pair hex_value set_bytes call is_dryrun
    secp_max_s checked_secret make_secret recovery_id insert check_code bytes_eq
secret_returned = refl

abbrev after_secret : History
after_secret =
    (request_secret ledger config nobody user_text (pos 5) (pos 27) word_text word_text none []).1

is_wet : is_dryrun none ≡ false
unfolding is_dryrun
is_wet = refl

request_secret-no_replay_example :
    (request_secret ledger config nobody user_text
      (pos 5)
      (pos 28)
      word_text
      word_text
      none
      after_secret).0
    ≢ ok secret
request_secret-no_replay_example =
    request_secret-no_replay ledger config nobody user_text user_text (pos 5) (pos 27) (pos 28)
      word_text word_text word_text word_text none none [] after_secret secret secret
      ledger-UniqueNonces is_wet is_wet refl secret_returned same

history_of-Justified_example :
    Each
      (Justified ledger config (Requested (opening ∷ [])))
      (history_of ledger config (codes "admin") (opening ∷ []))
history_of-Justified_example = history_of-Justified ledger config (codes "admin") (opening ∷ [])

handle-sends_example :
    count is_send (handle ledger config (codes "admin") opening [])
    ≤ count is_send [] + length opening.fields
handle-sends_example = handle-sends ledger config (codes "admin") opening []

handle-length_example :
    length (handle ledger config (codes "admin") opening [])
    ≤ length {A = Event} [] + 1 + 11 * length opening.fields
handle-length_example = handle-length ledger config (codes "admin") opening []
