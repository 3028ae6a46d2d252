-- ===== src/Tests/Accounts.antt =====
-- The creation of one account, with a mint.
use accounts_superposition_s.Prelude.{◌≡◌, refl, codes, [], ◌++◌, false, none, some}
use accounts_superposition_s.Outcome.{ok}
use accounts_superposition_s.Exec.{
  pure, raise, crash, exit, lift, ask, ◌>>=◌, refuse_if, when, on_error, wrap,
}
use accounts_superposition_s.Go.{
  copy, copy_from, hex_encode, hex_digit, hex_decode, decode_pair, hex_value, set_string, big_bytes,
  set_bytes, trim_prefix, has_prefix,
}
use accounts_superposition_s.Types.{zeros}
use accounts_superposition_s.Model
use accounts_superposition_s.Ninelives.{new_mint}
use accounts_superposition_s.Convertor.{
  str_to_bytes, str_to_addr, amount_bytes, ms_ts_left, checked_v, signature_of, sign_digest,
  permit_graph, sign_solve, create_solve_args_sig_args, create_solve_args_sig_args_mint,
  create_solve_args_sig_args_mint_graph, create_account_to_fresh_backwards,
  create_account_to_fresh_backwards_graph, authority_addr, tag, tag_fresh_backwards_with_mint_graph,
}
use accounts_superposition_s.Client.{call, known_fee, routed, deliver, send, send_arguments}
use accounts_superposition_s.Db.{some_row, pick_private_key}
use accounts_superposition_s.Graph.Resolver.{is_dryrun, track_tx, checked_secret, make_secret}
use accounts_superposition_s.Graph.Account.{tag_mint, insert, create_account_exec}
use accounts_superposition_s.Graph.Created.{IsCreated, create_account_exec-IsCreated}
use accounts_superposition_s.Tests.Fixture.{node, config, nobody, mint, new_account}

abbrev created : Model.CreateAccountExec
created = record {
  hash = codes "0x" ++ zeros 32;
  secret = codes "abababababababababababababababababababababababababababababababab";
}

account_created :
    (create_account_exec node config nobody new_account (some mint) none []).0 ≡ ok created
unfolding create_account_exec tag_mint insert pure raise crash exit lift ask ◌>>=◌ refuse_if when
    on_error wrap copy copy_from hex_encode hex_digit hex_decode decode_pair hex_value set_string
    big_bytes set_bytes trim_prefix has_prefix new_mint str_to_bytes str_to_addr amount_bytes
    ms_ts_left checked_v signature_of sign_digest permit_graph sign_solve create_solve_args_sig_args
    create_solve_args_sig_args_mint create_solve_args_sig_args_mint_graph
    create_account_to_fresh_backwards create_account_to_fresh_backwards_graph authority_addr tag
    tag_fresh_backwards_with_mint_graph call known_fee routed deliver send send_arguments some_row
    pick_private_key is_dryrun track_tx checked_secret make_secret
account_created = refl

is_wet : is_dryrun none ≡ false
unfolding is_dryrun
is_wet = refl

create_account_exec-IsCreated_example : IsCreated node config new_account (some mint) created
create_account_exec-IsCreated_example =
    create_account_exec-IsCreated node config nobody new_account (some mint) none [] created is_wet
      account_created
