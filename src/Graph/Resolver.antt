-- ===== src/Graph/Resolver.antt =====
-- graph/resolver.go, graph/utils.go and graph/secret.go: what the resolvers share.
use accounts_superposition_s.Prelude.{
  ℕ, ◌+◌, ◌*◌, ◌^◌, Bytes, String, codes, [], ◌∷◌, Bool, false, ◌||◌, Option, none, some, length,
  ◌==◌, if◌then◌else◌, ℤ,
}
use accounts_superposition_s.Outcome.{Error, text}
use accounts_superposition_s.Exec.{Exec, pure, crash, ask, ◌>>=◌, ◌>>◌}
use accounts_superposition_s.Go.{contains_str}
use accounts_superposition_s.World.{
  Event, http_post, rand_read, insert_transaction, Reply, answer, failed, Externals,
}

-- The settings of `Resolver`. The client and the database are the outside; the rate limiter is
-- not used by any resolver.
pub record Config : Type 0 where
  pub chain_id : ℤ
  pub minimum_amount : ℤ
  pub accounts_factory_addr : Bytes
  pub claimant_helper_addr : Bytes
  pub safety_router_addr : Bytes
  pub acc_pub_key : Bytes
  pub url_alarm : Bytes
  pub feature_claim_disabled : Bool
  pub feature_mint_disabled : Bool
  pub feature_check_code : Bool

-- What the middleware puts into the request's context.
pub record Context : Type 0 where
  pub snowflake : Option ℕ
  pub is_admin : Option Bool
  pub authed : Option Bool
  pub eoa : Option Bytes

-- `snowflake, _ := ctx.Value("snowflake").(int)`
abbrev pub snowflake_of : Context → ℕ
snowflake_of c = elim c.snowflake [ none ↦ 0 | some n ↦ n ]

-- `authed, _ := ctx.Value("authed").(bool)`
abbrev pub authed_of : Context → Bool
authed_of c = elim c.authed [ none ↦ false | some b ↦ b ]

unfoldable pub prog_dalek : Bytes
prog_dalek = codes "/usr/local/bin/ed25519-dalek-ph"

unfoldable pub is_dryrun : Option Bool → Bool
is_dryrun none = false
is_dryrun (some b) = b

-- the texts by which `isIgnorable` knows an error
unfoldable pub is_ignorable_text : Bytes → Bool
is_ignorable_text es =
    contains_str es (codes "res: 99090e")
    || contains_str es (codes "ERC20: transfer amount exceeds balance")
    || contains_str es (codes "res: 990995")

unfoldable pub is_ignorable : Error → Bool
unfolding is_ignorable_text
is_ignorable e = is_ignorable_text (text e)

-- `secpMaxS`, from its words of 64 bits, the lowest first
unfoldable pub secp_max_s : ℕ
secp_max_s =
    16134479119472337056
    + 6725966010171805725 * 2 ^ 64
    + 18446744073709551615 * 2 ^ 128
    + 9223372036854775807 * 2 ^ 192

module _ (x : Externals) where
  -- A failed post gives a nil response, whose body is then closed.
  unfoldable pub activate_soft_alarm : Bytes → ℕ → Error → Exec Event (Unit {0})
  activate_soft_alarm [] snowflake e = pure tt
  activate_soft_alarm (c ∷ url) snowflake e =
      let post = http_post (c ∷ url) snowflake (text e) in
      do sent ← ask post (x.post_result post); if sent then pure tt else crash

  -- an error of the insertion is dropped
  unfoldable pub track_tx : Bytes → Bytes → ℕ → String → Exec Event (Unit {0})
  track_tx eoa tx_hash gas_limit desc =
      let insert = insert_transaction eoa tx_hash gas_limit desc in
      do ask insert (x.exec_result insert); pure tt

  -- `n != 32 || err != nil` panics
  unfoldable pub checked_secret : Reply Bytes → Exec Event Bytes
  checked_secret (failed e) = crash
  checked_secret (answer b) = if length b == 32 then pure b else crash

  unfoldable pub make_secret : Exec Event Bytes
  unfolding checked_secret
  make_secret = do r ← ask (rand_read 32) (x.random_bytes 32); checked_secret r
