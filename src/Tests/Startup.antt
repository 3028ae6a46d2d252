-- ===== src/Tests/Startup.antt =====
-- The settings, the markets of a claim and the rows of the statistics.
use accounts_superposition_s.Prelude.{
  ◌≡◌, ◌↔◌, refl, Bytes, List, String, some, codes, [], ◌∷◌, ◌++◌, bytes_eq, true, pos, map, All,
  replicate,
}
use accounts_superposition_s.Outcome.{ok}
use accounts_superposition_s.Go.{set_string, hex_decode_string, decode_pair, hex_value, copy}
use accounts_superposition_s.World.{Statistics, answer, Externals}
use accounts_superposition_s.Convertor.{payoff_markets}
use accounts_superposition_s.Convertor.Payoff.{IsAddress, payoff_markets_iff}
use accounts_superposition_s.Graph.Queries.{statistics}
use accounts_superposition_s.Graph.Resolver.{Config}
use accounts_superposition_s.Graph.Rows.{statistics-scanned}
use accounts_superposition_s.Server.Settings.{minimum, is_set, address_setting, settings}
use accounts_superposition_s.Server.Settings.Checked.{IsConfigured, settings-IsConfigured}
use accounts_superposition_s.Tests.Fixture.{node, config, user, user_text}

-- An environment in which every variable is a text of 42 digits.
abbrev environment : String → Bytes
environment name = codes "111111111111111111111111111111111111111111"

abbrev digits_config : Config
digits_config = record {
  chain_id = pos 111111111111111111111111111111111111111111;
  minimum_amount = pos 111111111111111111111111111111111111111111;
  accounts_factory_addr = user;
  claimant_helper_addr = user;
  safety_router_addr = user;
  acc_pub_key = replicate 21 17 ++ replicate 11 0;
  url_alarm = codes "111111111111111111111111111111111111111111";
  feature_claim_disabled = true;
  feature_mint_disabled = true;
  feature_check_code = true;
}

configured : settings node environment ≡ ok digits_config
unfolding settings minimum is_set address_setting set_string hex_decode_string decode_pair hex_value
    copy bytes_eq
configured = refl

settings-IsConfigured_example : IsConfigured node environment digits_config
settings-IsConfigured_example = settings-IsConfigured node environment digits_config configured

payoff_markets_iff_example :
    (All (IsAddress node) (user_text ∷ [])
      → payoff_markets node (user_text ∷ []) ≡ ok (map node.hex_to_address (user_text ∷ [])))
    × ((addresses : List Bytes)
        → payoff_markets node (user_text ∷ []) ≡ ok addresses
        → All (IsAddress node) (user_text ∷ []))
payoff_markets_iff_example = payoff_markets_iff node (user_text ∷ [])

abbrev row : Statistics
row = record {
  action = codes "mint";
  avg_gas_limit_24_hours = codes "21000";
  avg_gas_limit_week = codes "21000";
  avg_gas_limit_all_time = codes "21000";
  tx_24_hours = pos 1;
  tx_week = pos 2;
  tx_all_time = pos 3;
}

-- The iteration breaks off after one row.
abbrev broken : Externals
broken = record node {
  statistics_rows = λ h. answer (record { scans = answer row ∷ []; broken = some (codes "reset") });
}

statistics-scanned_example :
    ((statistics broken config []).0 ≡ ok (row ∷ [])) ↔ (answer row ∷ [] ≡ map answer (row ∷ []))
statistics-scanned_example =
    statistics-scanned broken config []
      (record { scans = answer row ∷ []; broken = some (codes "reset") }) (row ∷ []) refl
