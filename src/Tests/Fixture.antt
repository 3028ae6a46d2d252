-- ===== src/Tests/Fixture.antt =====
-- One outside, configuration and request on which the theorems are run.
use accounts_superposition_s.Prelude.{
  Bytes, codes, [], ◌∷◌, ◌++◌, true, false, none, some, length, replicate, ◌==◌, pos,
}
use accounts_superposition_s.Model
use accounts_superposition_s.Types.{zeros}
use accounts_superposition_s.World.{answer, Externals}
use accounts_superposition_s.Graph.Resolver.{Config, Context}

abbrev pub user : Bytes
user = replicate 20 0x11

abbrev pub factory : Bytes
factory = replicate 20 0x22

abbrev pub service_key : Bytes
service_key = replicate 32 7

-- A node that accepts everything, one key in the database, and one user with one secret.
abbrev pub node : Externals
node = record {
  sha512 = λ b. zeros 64;
  serialize_solve_args = λ a. answer a.cd;
  serialize_solve_v2_args = λ a. answer a.permit_owner;
  serialize_solve_v3_args = λ a. answer [];
  serialize_args = λ a. answer a.solve_v2.sig;
  asset_usdc = 0;
  is_hex_address = λ s. length s == 42;
  hex_to_address = λ s. user;
  address_string = λ a. codes "0x" ++ a;
  bytes_to_address = λ b. b;
  left_pad_bytes = λ b n. zeros 12 ++ b;
  keccak256 = λ b. zeros 32;
  sig_to_pub = λ digest sig. answer sig;
  pubkey_to_address = λ k. user;
  hex_to_ecdsa = λ b. answer b;
  public_key = λ k. k;
  sign_tx = λ tx chain_id key. answer (zeros 65);
  tx_hash = λ s. zeros 32;
  hash_hex = λ h. codes "0x" ++ h;
  pack_mint = λ name outcome value referrer recipient. answer (outcome ++ referrer ++ recipient);
  pack_addresses = λ name addresses eoa. answer eoa;
  show_fresh = λ f. [];
  signer_output = λ prog arg h. record { out = replicate 64 9; failure = none };
  estimate = λ msg h. answer 21000;
  base_fee = λ h. answer (some 100);
  gas_tip_cap = λ h. answer 3;
  nonce_at = λ a h. answer 5;
  contract_result = λ msg h. answer [];
  send_result = λ s h. answer tt;
  code = λ a h. answer (1 ∷ []);
  private_key_row = λ h. answer (some (replicate 64 b'1'));
  exec_result = λ e h. answer tt;
  count_row = λ e h. answer 1;
  statistics_rows = λ h. answer (record { scans = []; broken = none });
  post_result = λ e h. true;
  random_bytes = λ n h. answer (replicate 32 0xab);
}

abbrev pub config : Config
config = record {
  chain_id = pos 55244;
  minimum_amount = pos 100;
  accounts_factory_addr = factory;
  claimant_helper_addr = replicate 20 0x33;
  safety_router_addr = replicate 20 0x44;
  acc_pub_key = service_key;
  url_alarm = [];
  feature_claim_disabled = false;
  feature_mint_disabled = false;
  feature_check_code = true;
}

abbrev pub known_user : Context
known_user = record { snowflake = some 1; is_admin = none; authed = some true; eoa = some user }

abbrev pub nobody : Context
nobody = record { snowflake = none; is_admin = none; authed = none; eoa = none }

abbrev pub mint : Model.Mint
mint = record {
  market = codes "0x5555555555555555555555555555555555555555";
  outcome = codes "0x0102030405060708";
  amount = codes "1000";
  referrer = [];
  permit = none;
  ms_ts = codes "1700000000000";
}

abbrev pub user_text : Bytes
user_text = codes "0x1111111111111111111111111111111111111111"

-- 32 bytes in hex
abbrev pub word_text : Bytes
word_text = codes "0202020202020202020202020202020202020202020202020202020202020202"

abbrev pub new_account : Model.CreateAccount
new_account = record {
  eoa_addr = user_text;
  sig_v = pos 27;
  sig_r = word_text;
  sig_s = word_text;
  authority = none;
}
