-- ===== src/Tests/Sending.antt =====
-- One transaction, and one signed message.
use accounts_superposition_s.Prelude.{
  ◌/◌, ◌%◌, ◌^◌, ◌<◌, ◌≡◌, ◌≤◌, ◌+◌, ◌*◌, arith, refl, ℕ, replicate, Bytes, [], ◌∷◌, ◌++◌, true,
  false, none, pos,
}
use accounts_superposition_s.Exec.{pure, raise, crash, lift, ask, ◌>>=◌, on_error, wrap}
use accounts_superposition_s.Exec.Inversion.{Returned}
use accounts_superposition_s.Go.{
  copy, copy_from, hex_encode, hex_decode, decode_pair, hex_value, set_string, big_bytes, set_bytes,
  with_margin, times_030, round53, round_at, unit_fuel, trim_prefix, has_prefix,
}
use accounts_superposition_s.Types.{SolveArgs, SolveArgsSigArgs, Args, zeros, zero_args, Variant}
use accounts_superposition_s.Ninelives.{new_mint}
use accounts_superposition_s.World.{History}
use accounts_superposition_s.Convertor.{
  str_to_bytes, str_to_addr, amount_bytes, ms_ts_left, signature_of, sign_digest, create_solve_v2,
  permit_graph, sign_solve, create_solve_args_sig_args, create_solve_args_sig_args_mint,
  create_solve_args_sig_args_mint_graph,
}
use accounts_superposition_s.Convertor.Signed.{
  IsSolveV2, create_solve_v2-IsSolveV2, IsMint, create_solve_args_sig_args_mint_graph-IsMint,
}
use accounts_superposition_s.Client.{call, known_fee, routed, deliver, send}
use accounts_superposition_s.Client.Margin.{with_margin-bounds}
use accounts_superposition_s.Client.Double.{IsDouble, with_margin-IsDouble}
use accounts_superposition_s.Client.Sent.{asked, IsSent, send-IsSent}
use accounts_superposition_s.Tests.Fixture.{node, user, factory, mint}

abbrev calldata : Bytes
calldata = 1 ∷ 2 ∷ []

abbrev after_send : History
after_send = (send node factory true (pos 7) [] user user calldata none false []).1

abbrev margined : Bytes × ℕ
margined = (zeros 32, 27300)

sent_once :
    Returned
      (send node factory true (pos 7) [] user user calldata none false)
      []
      margined
      after_send
unfolding send pure raise crash lift ask ◌>>=◌ on_error wrap call known_fee routed deliver
    with_margin times_030 round53 round_at unit_fuel
sent_once = record { value = refl; history = refl }

send-IsSent_example :
    IsSent node
      (pos 7)
      []
      (asked user factory (zeros 12 ++ user ++ calldata) 0)
      0
      []
      (zeros 32)
      27300
      after_send
send-IsSent_example =
    send-IsSent node factory true (pos 7) [] user user calldata none (zeros 32) 27300 [] after_send
      sent_once

abbrev operation : SolveArgs
operation = record {
  permit = [];
  from_args = [];
  target = factory;
  cd = calldata;
  ms_ts = zeros 16;
}

abbrev message : Args
message = record (zero_args Variant.solve_v2) {
  solve_v2 = record {
    args = record { args = operation ∷ []; permit_owner = user; transfer_owner = user };
    sig = replicate 64 9;
  };
}

abbrev after_signing : History
after_signing = (create_solve_v2 node [] (operation ∷ []) user user []).1

message_signed :
    Returned (create_solve_v2 node [] (operation ∷ []) user user) [] message after_signing
unfolding create_solve_v2 pure raise lift ask ◌>>=◌ on_error wrap sign_digest signature_of copy
message_signed = record { value = refl; history = refl }

create_solve_v2-IsSolveV2_example :
    IsSolveV2 node []
      (record { args = operation ∷ []; permit_owner = user; transfer_owner = user })
      []
      message
      after_signing
create_solve_v2-IsSolveV2_example =
    create_solve_v2-IsSolveV2 node [] (operation ∷ []) user user [] after_signing message
      message_signed

abbrev mint_operation : SolveArgsSigArgs
mint_operation = record {
  sig = replicate 64 9;
  args = record {
    permit = [];
    from_args =
        record { asset = 0; to_take = zeros 30 ++ 3 ∷ 232 ∷ []; max_unspent = zeros 32 } ∷ [];
    target = replicate 20 0x55;
    cd = (1 ∷ 2 ∷ 3 ∷ 4 ∷ 5 ∷ 6 ∷ 7 ∷ 8 ∷ []) ++ zeros 20 ++ user;
    ms_ts = 1 ∷ 139 ∷ 207 ∷ 229 ∷ 104 ∷ 0 ∷ zeros 10;
  };
}

abbrev after_minting : History
after_minting =
    (create_solve_args_sig_args_mint_graph node [] 0 mint.market mint.outcome mint.amount
      mint.referrer user mint.permit mint.ms_ts []).1

mint_made :
    Returned
      (create_solve_args_sig_args_mint_graph node [] 0 mint.market mint.outcome mint.amount
        mint.referrer user mint.permit mint.ms_ts)
      []
      mint_operation
      after_minting
unfolding create_solve_args_sig_args_mint_graph create_solve_args_sig_args_mint
    create_solve_args_sig_args sign_solve permit_graph str_to_bytes str_to_addr amount_bytes
    ms_ts_left new_mint pure raise lift ask ◌>>=◌ on_error wrap sign_digest signature_of copy
    copy_from hex_encode hex_decode decode_pair hex_value set_string big_bytes set_bytes trim_prefix
    has_prefix
mint_made = record { value = refl; history = refl }

create_solve_args_sig_args_mint_graph-IsMint_example :
    IsMint node 0 mint.market mint.outcome mint.amount mint.referrer user mint.permit mint.ms_ts
      mint_operation.args
create_solve_args_sig_args_mint_graph-IsMint_example =
    create_solve_args_sig_args_mint_graph-IsMint node [] 0 mint.market mint.outcome mint.amount
      mint.referrer user mint.permit mint.ms_ts mint_operation [] after_minting mint_made

with_margin-bounds_example :
    (21000 ≤ with_margin 21000)
    × (10 * with_margin 21000 ≤ 13 * 21000 + 3)
    × (13 * 21000 ≤ 10 * with_margin 21000 + 14)
with_margin-bounds_example = with_margin-bounds 21000 (omega arith)

with_margin-IsDouble_example :
    IsDouble (round53 (2 ^ 60 + 1))
    × IsDouble (round53 (round53 (2 ^ 60 + 1) * 5404319552844595))
    × (round53 (round53 (2 ^ 60 + 1) * 5404319552844595) / 2 ^ 54 < 2 ^ 64)
    × (with_margin (2 ^ 60 + 1)
        ≡ (2 ^ 60 + 1 + round53 (round53 (2 ^ 60 + 1) * 5404319552844595) / 2 ^ 54) % 2 ^ 64)
with_margin-IsDouble_example = with_margin-IsDouble (2 ^ 60 + 1) (omega arith)
