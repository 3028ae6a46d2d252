-- ===== src/Server/Settings.antt =====
-- The settings that `main` reads from the environment, and the checks that end the process.
pub mod Checked
use accounts_superposition_s.Prelude.{
  Bytes, String, [], ◌∷◌, Bool, not, Option, none, some, ℤ, pos, bytes_eq,
}
use accounts_superposition_s.Outcome.{
  Error, note, bytes, ◌◂◌, Outcome, ok, err, panic, fatal, ◌>>=◌, ◌>>◌,
}
use accounts_superposition_s.Go.{set_string, hex_decode_string, copy}
use accounts_superposition_s.Types.{zeros}
use accounts_superposition_s.World.{Externals}
use accounts_superposition_s.Graph.Resolver.{Config}

-- `if bad { log.Fatal(…) }`
abbrev pub fatal_if : Bool → Error → Outcome (Unit {0})
fatal_if Bool.true e = fatal e
fatal_if Bool.false e = ok tt

-- `if err != nil { log.Fatalf("prefix: %v", err) }`
abbrev pub or_fatal {ℓ} : {A : Type ℓ} → String → Outcome A → Outcome A
or_fatal s (ok a) = ok a
or_fatal s (err e) = fatal (note s ◂ e)
or_fatal s panic = panic
or_fatal s (fatal e) = fatal e

abbrev pub or_fatal_none : Option ℤ → Error → Outcome ℤ
or_fatal_none none e = fatal e
or_fatal_none (some z) e = ok z

-- unset is zero
unfoldable pub minimum : Bytes → Outcome ℤ
minimum [] = ok (pos 0)
minimum (c ∷ s) = or_fatal_none (set_string (c ∷ s)) (note "bad minimum amount: " ◂ bytes (c ∷ s))

-- `os.Getenv(name) != ""`
unfoldable pub is_set : Bytes → Bool
is_set s = not (bytes_eq s [])

module _ (x : Externals) (getenv : String → Bytes) where
  -- `if !IsHexAddress(s) { log.Fatal(…) }`
  unfoldable pub address_setting : String → Error → Outcome Bytes
  address_setting name e = do
    fatal_if (not (x.is_hex_address (getenv name))) e
    ok (x.hex_to_address (getenv name))

  unfoldable pub settings : Outcome Config
  unfolding minimum is_set address_setting
  settings = do
    chain_id ← or_fatal_none (set_string (getenv "SPN_CHAIN_ID")) (note "chain id not set")
    minimum_amount ← minimum (getenv "SPN_MINIMUM_AMOUNT")
    safety_router ← address_setting "SPN_SAFETY_ROUTER_ADDR" (note "safety router addr not set")
    factory ← address_setting "SPN_ACCOUNTS_ADDR" (note "accounts factory addr not set")
    ignored ←
        or_fatal "accounts private key needs to be set: "
          (hex_decode_string (getenv "SPN_ACCOUNTS_PRIVATE_KEY"))
    key ← or_fatal "accounts public key: " (hex_decode_string (getenv "SPN_ACCOUNTS_PUBLIC_KEY"))
    ok (record {
      chain_id = chain_id;
      minimum_amount = minimum_amount;
      accounts_factory_addr = factory;
      claimant_helper_addr = x.hex_to_address (getenv "SPN_CLAIMANT_HELPER");
      safety_router_addr = safety_router;
      acc_pub_key = copy (zeros 32) key;
      url_alarm = getenv "SPN_ALARM_WEBHOOK";
      feature_claim_disabled = is_set (getenv "SPN_FEATURE_CLAIM_DISABLED");
      feature_mint_disabled = is_set (getenv "SPN_FEATURE_MINT_DISABLED");
      feature_check_code = is_set (getenv "SPN_FEATURE_CHECK_CODE");
    })
