-- ===== src/Server/Settings/Checked.antt =====
-- What a configuration that passes the checks of `main` guarantees.
use accounts_superposition_s.Prelude.{
  ◌≡◌, refl, Bytes, String, [], ◌∷◌, Bool, true, false, not, Option, none, some, ℤ, pos, length,
  arith,
}
use accounts_superposition_s.Outcome.{Error, Outcome, ok, err, panic, fatal, ◌>>=◌}
use accounts_superposition_s.Go.{set_string, hex_decode_string, copy}
use accounts_superposition_s.Go.CopyLaws.{length-copy}
use accounts_superposition_s.Types.{zeros}
use accounts_superposition_s.World.{Externals}
use accounts_superposition_s.Graph.Resolver.{Config}
use accounts_superposition_s.Server.Settings.{
  or_fatal, or_fatal_none, fatal_if, minimum, address_setting, settings,
}

bind-ok :
    {A B : Type 0} (m : Outcome A) (f : A → Outcome B) {b : B}
    → (m >>= f) ≡ ok b
    → (a : A) × (m ≡ ok a) × (f a ≡ ok b)
bind-ok (ok a) f p = (a, refl, p)
bind-ok (err e) f p = absurd (cc)
bind-ok panic f p = absurd (cc)
bind-ok (fatal e) f p = absurd (cc)

ok_injective : {A : Type 0} {a b : A} → ok a ≡ ok b → a ≡ b
ok_injective p = ground (arith, p)

or_fatal_none-ok : (o : Option ℤ) (e : Error) {z : ℤ} → or_fatal_none o e ≡ ok z → o ≡ some z
or_fatal_none-ok none e p = absurd (cc)
or_fatal_none-ok (some z) e p = ground (arith, p)

or_fatal-ok : (s : String) (o : Outcome Bytes) {b : Bytes} → or_fatal s o ≡ ok b → o ≡ ok b
or_fatal-ok s (ok a) p = p
or_fatal-ok s (err e) p = absurd (cc)
or_fatal-ok s panic p = absurd (cc)
or_fatal-ok s (fatal e) p = absurd (cc)

-- An unset minimum is zero, and a set one is a decimal number.
abbrev pub IsMinimum : Bytes → ℤ → Type 0
IsMinimum [] z = z ≡ pos 0
IsMinimum (c ∷ s) z = set_string (c ∷ s) ≡ some z

minimum-IsMinimum : (s : Bytes) {z : ℤ} → minimum s ≡ ok z → IsMinimum s z
unfolding minimum
minimum-IsMinimum [] p = ground (arith, p)
minimum-IsMinimum (c ∷ s) p = or_fatal_none-ok _ _ p

module _ (x : Externals) (getenv : String → Bytes) where
  address_setting-ok :
      (name : String) (e : Error) {a : Bytes}
      → address_setting x getenv name e ≡ ok a
      → (x.is_hex_address (getenv name) ≡ true) × (a ≡ x.hex_to_address (getenv name))
  unfolding address_setting
  address_setting-ok name e {a} p = go (x.is_hex_address (getenv name)) refl p
    where
      go :
          (t : Bool)
          → x.is_hex_address (getenv name) ≡ t
          → (fatal_if (not t) e >>= λ _. ok (x.hex_to_address (getenv name))) ≡ ok a
          → (x.is_hex_address (getenv name) ≡ true) × (a ≡ x.hex_to_address (getenv name))
      go true q p = (q, ground (arith, p))
      go false q p = absurd (cc (p))

  pub record IsConfigured (c : Config) : Type 0 where
    pub chain : set_string (getenv "SPN_CHAIN_ID") ≡ some c.chain_id
    pub minimum_read : IsMinimum (getenv "SPN_MINIMUM_AMOUNT") c.minimum_amount
    pub router : x.is_hex_address (getenv "SPN_SAFETY_ROUTER_ADDR") ≡ true
    pub router_addr : c.safety_router_addr ≡ x.hex_to_address (getenv "SPN_SAFETY_ROUTER_ADDR")
    pub factory : x.is_hex_address (getenv "SPN_ACCOUNTS_ADDR") ≡ true
    pub factory_addr : c.accounts_factory_addr ≡ x.hex_to_address (getenv "SPN_ACCOUNTS_ADDR")
    pub public_key : Bytes
    pub key_decoded : hex_decode_string (getenv "SPN_ACCOUNTS_PUBLIC_KEY") ≡ ok public_key
    pub key : c.acc_pub_key ≡ copy (zeros 32) public_key
    pub key_size : length c.acc_pub_key ≡ 32

  -- When the checks on the environment pass, the chain's id is a decimal number, the minimum amount is
  -- one or is unset and zero, the router and the factory are addresses, and the service's public key
  -- is hex, cut or filled up to 32 bytes.
  pub settings-IsConfigured : (c : Config) → settings x getenv ≡ ok c → IsConfigured c
  unfolding settings
  settings-IsConfigured c p =
      let (chain, v₁, p₁) = bind-ok _ _ p in
      let (least, v₂, p₂) = bind-ok _ _ p₁ in
      let (router, v₃, p₃) = bind-ok _ _ p₂ in
      let (factory, v₄, p₄) = bind-ok _ _ p₃ in
      let (ignored, v₅, p₅) =
        bind-ok
          (or_fatal "accounts private key needs to be set: "
            (hex_decode_string (getenv "SPN_ACCOUNTS_PRIVATE_KEY")))
          _ p₄ in
      let (key, v₆, p₆) =
        bind-ok
          (or_fatal "accounts public key: " (hex_decode_string (getenv "SPN_ACCOUNTS_PUBLIC_KEY")))
          _ p₅ in
      let (is_router, router_addr) = address_setting-ok _ _ v₃ in
      let (is_factory, factory_addr) = address_setting-ok _ _ v₄ in
      let e = ok_injective p₆ in
      rw (← e) (record {
        chain = or_fatal_none-ok _ _ v₁;
        minimum_read = minimum-IsMinimum _ v₂;
        router = is_router;
        router_addr = router_addr;
        factory = is_factory;
        factory_addr = factory_addr;
        public_key = key;
        key_decoded = or_fatal-ok "accounts public key: " _ v₆;
        key = refl;
        key_size = length-copy (zeros 32) key;
      })
