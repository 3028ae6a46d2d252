-- ===== src/Tests/Mutations.antt =====
-- The mutations on one outside.
use accounts_superposition_s.Prelude.{
  ◌≡◌, ◌≢◌, refl, arith, Bytes, codes, [], ◌∷◌, ◌++◌, false, none, some, pos,
}
use accounts_superposition_s.Outcome.{ok}
use accounts_superposition_s.Exec.{
  pure, raise, crash, exit, lift, ask, ◌>>=◌, refuse_if, when, on_error, wrap,
}
use accounts_superposition_s.Go.{
  copy, copy_from, hex_encode, hex_decode, decode_pair, hex_value, hex_digit, set_string, big_bytes,
  trim_prefix, has_prefix,
}
use accounts_superposition_s.Types.{zeros}
use accounts_superposition_s.Ninelives.{new_mint}
use accounts_superposition_s.Convertor.{
  str_to_bytes, str_to_addr, amount_bytes, ms_ts_left, signature_of, sign_digest, create_solve_v2,
  permit_graph, sign_solve, create_solve_args_sig_args, create_solve_args_sig_args_mint,
  create_solve_args_sig_args_mint_graph,
}
use accounts_superposition_s.Client.{call, known_fee, routed, deliver, send, send_arguments}
use accounts_superposition_s.Db.{some_row, pick_private_key}
use accounts_superposition_s.Graph.Resolver.{is_dryrun, track_tx}
use accounts_superposition_s.Graph.Send.{
  above, check_minimum, context_eoa, picked_key, alarm_unless_ignorable, ninelives_mint,
}
use accounts_superposition_s.Exec.Emits.{Emits}
use accounts_superposition_s.Graph.Send.{claim_rewards}
use accounts_superposition_s.Graph.Unauthed.{ninelives_mint_unauthed}
use accounts_superposition_s.Graph.Claims.{claim_rewards_never}
use accounts_superposition_s.Graph.Minted.{IsMinted, ninelives_mint-IsMinted}
use accounts_superposition_s.Tests.Fixture.{node, config, known_user, nobody, mint}

abbrev mint_hash : Bytes
mint_hash = codes "0x" ++ zeros 32

mint_returns : (ninelives_mint node config known_user mint none []).0 ≡ ok mint_hash
unfolding ninelives_mint pure raise crash exit lift ask ◌>>=◌ refuse_if when on_error wrap copy
    copy_from hex_encode hex_decode decode_pair hex_value hex_digit set_string big_bytes trim_prefix
    has_prefix new_mint str_to_bytes str_to_addr amount_bytes ms_ts_left signature_of sign_digest
    create_solve_v2 permit_graph sign_solve create_solve_args_sig_args
    create_solve_args_sig_args_mint create_solve_args_sig_args_mint_graph call known_fee routed
    deliver send send_arguments some_row pick_private_key is_dryrun track_tx above check_minimum
    context_eoa picked_key alarm_unless_ignorable
mint_returns = refl

is_wet : is_dryrun none ≡ false
unfolding is_dryrun
is_wet = refl

ninelives_mint-IsMinted_example :
    IsMinted node config known_user mint [] mint_hash
      (ninelives_mint node config known_user mint none []).1
ninelives_mint-IsMinted_example =
    ninelives_mint-IsMinted node config known_user mint none [] mint_hash is_wet mint_returns

ninelives_mint_unauthed_example :
    ((ninelives_mint node config nobody mint none []).1 ≡ [])
    × ((tx : Bytes) → (ninelives_mint node config nobody mint none []).0 ≢ ok tx)
ninelives_mint_unauthed_example = ninelives_mint_unauthed node config nobody mint none [] refl

ms_ts_read : set_string mint.ms_ts ≡ some (pos 1700000000000)
unfolding set_string
ms_ts_read = refl

claim_rewards_never_example :
    (claim_rewards node config known_user (mint.market ∷ []) mint.ms_ts none []).0 ≢ ok mint_hash
claim_rewards_never_example =
    claim_rewards_never node config known_user (mint.market ∷ []) mint.ms_ts (pos 1700000000000)
      none [] mint_hash ms_ts_read (omega arith)
