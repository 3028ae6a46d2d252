-- ===== src/Tests/Answering.antt =====
-- A mint against a node that accepts everything.
use accounts_superposition_s.Prelude.{◌≡◌, refl, [], false, none, some, pos, arith}
use accounts_superposition_s.Exec.Progress.{IsOk, Returns}
use accounts_superposition_s.Go.{
  copy, copy_from, hex_decode, decode_pair, hex_value, trim_prefix, has_prefix, set_string,
  big_bytes,
}
use accounts_superposition_s.Cooperation.{IsCooperative}
use accounts_superposition_s.Convertor.{
  checked_v, amount_bytes, ms_ts_left, str_to_bytes, str_to_addr,
}
use accounts_superposition_s.Graph.Account.{create_account_exec}
use accounts_superposition_s.Graph.LiveAccount.{IsValidAccount, create_account_exec-Returns}
use accounts_superposition_s.Graph.Send.{above, ninelives_mint}
use accounts_superposition_s.Graph.Live.{IsValidMint, ninelives_mint-Returns}
use accounts_superposition_s.Tests.Fixture.{
  nobody, new_account, word_text, user_text, node, config, known_user, mint, user,
}

node-IsCooperative : IsCooperative node
node-IsCooperative = record {
  solve_args = λ a. (_, refl);
  solve_v2_args = λ a. (_, refl);
  args = λ a. (_, refl);
  mint = λ outcome value referrer recipient. (_, refl);
  sign = λ tx s key known. (_, refl);
  signer = λ prog d h. refl;
  row = λ h. (_, refl, (_, refl));
  estimate = λ m h. (_, refl);
  base_fee = λ h. (_, refl);
  tip = λ h. (_, refl);
  nonce = λ a h. (_, refl);
  simulate = λ m h. (_, refl);
  accept = λ t h. (_, refl);
  random = λ h. (_, refl, refl);
  stores = λ address secret h size. (_, refl);
}

outcome_read : IsOk (str_to_bytes 8 mint.outcome)
unfolding str_to_bytes hex_decode decode_pair hex_value trim_prefix has_prefix
outcome_read = (_, refl)

market_read : IsOk (str_to_addr mint.market)
unfolding str_to_addr str_to_bytes hex_decode decode_pair hex_value trim_prefix has_prefix
market_read = (_, refl)

referrer_read : IsOk (str_to_addr mint.referrer)
unfolding str_to_addr
referrer_read = (_, refl)

amount_read : set_string mint.amount ≡ some (pos 1000)
unfolding set_string
amount_read = refl

ms_ts_read : set_string mint.ms_ts ≡ some (pos 1700000000000)
unfolding set_string
ms_ts_read = refl

enough : above config.minimum_amount (pos 1000) ≡ false
unfolding above
enough = refl

mint-IsValidMint : IsValidMint config known_user mint
mint-IsValidMint = record {
  enabled = refl;
  authed = refl;
  eoa = user;
  user = refl;
  amount = pos 1000;
  amount_read = amount_read;
  enough = enough;
  fits = omega arith;
  outcome_decodes = outcome_read;
  market_decodes = market_read;
  referrer_decodes = referrer_read;
  ms_ts = pos 1700000000000;
  ms_ts_read = ms_ts_read;
  permit_decodes = tt;
}

v_read : IsOk (checked_v new_account.sig_v)
unfolding checked_v
v_read = (_, refl)

word_read : IsOk (str_to_bytes 32 word_text)
unfolding str_to_bytes hex_decode decode_pair hex_value trim_prefix has_prefix
word_read = (_, refl)

user_read : IsOk (str_to_addr user_text)
unfolding str_to_addr str_to_bytes hex_decode decode_pair hex_value trim_prefix has_prefix
user_read = (_, refl)

amount_decoded : IsOk (amount_bytes mint.amount)
unfolding amount_bytes set_string big_bytes copy_from
amount_decoded = (_, refl)

ms_ts_decoded : IsOk (ms_ts_left mint.ms_ts)
unfolding ms_ts_left set_string big_bytes copy
ms_ts_decoded = (_, refl)

new_account-IsValidAccount : IsValidAccount node new_account (some mint)
new_account-IsValidAccount = record {
  is_address = refl;
  eoa_decodes = user_read;
  authority_decodes = tt;
  v_decodes = v_read;
  r_decodes = word_read;
  s_decodes = word_read;
  mint_decodes = (outcome_read, amount_decoded, market_read, referrer_read, ms_ts_decoded, tt);
}

create_account_exec-Returns_example :
    Returns (create_account_exec node config nobody new_account (some mint) none) []
create_account_exec-Returns_example =
    create_account_exec-Returns node node-IsCooperative config nobody new_account (some mint) none
      [] new_account-IsValidAccount

ninelives_mint-Returns_example : Returns (ninelives_mint node config known_user mint none) []
ninelives_mint-Returns_example =
    ninelives_mint-Returns node node-IsCooperative config known_user mint none [] mint-IsValidMint
