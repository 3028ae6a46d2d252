-- ===== src/Graph/Account.antt =====
-- graph/schema.resolvers.go: `CreateAccountExec` and `RequestSecret`, which hand out secrets.
use accounts_superposition_s.Prelude.{
  ℕ, ◌-◌, ◌/◌, ◌%◌, ◌^◌, Bytes, codes, [], ◌∷◌, ◌++◌, Bool, false, not, ◌||◌, Option, none, some,
  length, ltb, ◌==◌, bytes_eq, if◌then◌else◌, ℤ, pos, negsuc,
}
use accounts_superposition_s.Outcome.{note, bytes, ◌◂◌, Outcome, ok, err}
use accounts_superposition_s.Exec.{
  Exec, pure, raise, exit, lift, refuse_if, when, on_error, wrap, ◌>>=◌, ◌>>◌,
}
use accounts_superposition_s.Go.{copy, hex_encode, hex_decode_string, set_bytes, to_lower}
use accounts_superposition_s.Types.{Args, FreshBackwards, zeros, zero_args, fresh_backwards}
use accounts_superposition_s.World.{
  Event, insert_secret, insert_nonce_secret, code_at, outcome, Externals,
}
use accounts_superposition_s.Model
use accounts_superposition_s.ClientAddr.{get_client_addr}
use accounts_superposition_s.Convertor.{
  create_account_to_fresh_backwards_graph, tag_fresh_backwards_with_mint_graph,
}
use accounts_superposition_s.Client.{call, send_arguments}
use accounts_superposition_s.Db.{pick_private_key}
use accounts_superposition_s.Graph.Resolver.{
  Config, Context, snowflake_of, prog_dalek, is_dryrun, is_ignorable, secp_max_s,
  activate_soft_alarm, track_tx, make_secret,
}

-- `uint8(sigV)` in range, with 27 and 28 brought down to 0 and 1
unfoldable pub recovery_id : ℤ → Outcome ℕ
recovery_id (negsuc n) = err (note "decoding v: too large")
recovery_id (pos n) =
    if ltb 255 n
    then err (note "decoding v: too large")
    else ok (if n == 27 || n == 28 then n - 27 else n)

-- `binary.Encode(b, binary.BigEndian, nonce)` of an int32
unfoldable pub be32 : ℤ → Bytes
be32 (pos n) = n / 2 ^ 24 % 256 ∷ n / 2 ^ 16 % 256 ∷ n / 2 ^ 8 % 256 ∷ n % 256 ∷ []
be32 (negsuc n) =
    let m = 2 ^ 32 - 1 - n in m / 2 ^ 24 % 256 ∷ m / 2 ^ 16 % 256 ∷ m / 2 ^ 8 % 256 ∷ m % 256 ∷ []

-- what the wallet signed: the key in hex, then the nonce in hex
unfoldable pub secret_preimage : Bytes → ℤ → Bytes
unfolding be32
secret_preimage acc_pub_key nonce =
    (25 ∷ codes "Ethereum Signed Message:\n72") ++ hex_encode acc_pub_key ++ hex_encode (be32 nonce)

module _ (x : Externals) (r : Config) where
  -- `if mint != nil { … }`
  unfoldable pub tag_mint : FreshBackwards → Bytes → Option Model.Mint → Exec Event FreshBackwards
  tag_mint f eoa none = pure f
  tag_mint f eoa (some mint) = wrap "mint tagging: " (
      tag_fresh_backwards_with_mint_graph x prog_dalek f x.asset_usdc mint.market mint.outcome
        mint.amount mint.referrer eoa mint.permit mint.ms_ts)

  -- An error of the database is not told to the client.
  unfoldable pub insert : Event → Exec Event (Unit {0})
  insert e = on_error (call e (x.exec_result e)) (λ _. raise (note "error inserting secret"))

  unfoldable pub create_account_exec :
      Context
      → Model.CreateAccount
      → Option Model.Mint
      → Option Bool
      → Exec Event Model.CreateAccountExec
  unfolding tag_mint insert
  create_account_exec ctx create_account mint dryrun = do
    f0 ←
        wrap "create account: "
          (create_account_to_fresh_backwards_graph r.acc_pub_key create_account)
    refuse_if (not (x.is_hex_address create_account.eoa_addr)) (note "not eoa address")
    let eoa = x.hex_to_address create_account.eoa_addr
    f ← tag_mint f0 eoa mint
    (priv_key, sender) ←
        on_error (pick_private_key x) (λ e. exit (note "error picking private key: " ◂ e))
    let args : Args = record (zero_args fresh_backwards) { fresh_backwards = f }
    (h, gas_limit) ←
        on_error
          (send_arguments x r.safety_router_addr false r.chain_id priv_key sender
            r.accounts_factory_addr args (is_dryrun dryrun))
          λ e. do
            when (not (is_ignorable e)) (
                activate_soft_alarm x r.url_alarm (snowflake_of ctx) (
                  note "create account exec, user address: "
                  ◂ bytes (x.address_string eoa)
                  ◂ note ", sender: "
                  ◂ bytes (x.address_string sender)
                  ◂ note ", contract: "
                  ◂ bytes (x.address_string r.accounts_factory_addr)
                  ◂ note ", err: "
                  ◂ e))
            raise (note "send arguments: fresh backwards " ◂ bytes (x.show_fresh f) ◂ note ": " ◂ e)
    secret ← make_secret x
    let secret_x = hex_encode secret
    when (not (is_dryrun dryrun)) (do
      let eoa_s = to_lower (x.address_string eoa)
      insert (insert_secret eoa_s secret_x)
      track_tx x eoa_s (x.hash_hex h) gas_limit "create account")
    pure (record { hash = x.hash_hex h; secret = secret_x })

  -- `if r.FeatureCheckCode { … }`
  unfoldable pub check_code : Bytes → Exec Event (Unit {0})
  check_code client_addr = when r.feature_check_code (do
    acc_code ←
        on_error (call (code_at client_addr) (x.code client_addr))
          (λ _. raise (note "acc addr searching error"))
    refuse_if (length acc_code == 0) (note "account has no code"))

  unfoldable pub request_secret :
      Context → Bytes → ℤ → ℤ → Bytes → Bytes → Option Bool → Exec Event Bytes
  unfolding recovery_id secret_preimage check_code insert
  request_secret ctx eoa_addr nonce sig_v sig_r sig_s dryrun = do
    refuse_if (not (x.is_hex_address eoa_addr)) (note "decoding address")
    let eoa = x.hex_to_address eoa_addr
    sr ← wrap "decoding r: " (lift (hex_decode_string sig_r))
    ss ← wrap "decoding s: " (lift (hex_decode_string sig_s))
    refuse_if (ltb secp_max_s (set_bytes ss)) (note "s malleable")
    v ← lift (recovery_id sig_v)
    let sig = copy (zeros 32) sr ++ copy (zeros 32) ss ++ v ∷ []
    let digest = x.keccak256 (secret_preimage r.acc_pub_key nonce)
    pub_key ← wrap "recover pubkey: " (lift (outcome (x.sig_to_pub digest sig)))
    let exp_addr = x.pubkey_to_address pub_key
    refuse_if (not (bytes_eq eoa exp_addr)) (
        note "bad derivation: "
        ◂ bytes (x.address_string eoa)
        ◂ note ", expected: "
        ◂ bytes (x.address_string exp_addr))
    check_code (get_client_addr x r.accounts_factory_addr eoa)
    secret ← make_secret x
    let secret_x = hex_encode secret
    when (not (is_dryrun dryrun))
        (insert (insert_nonce_secret (to_lower (x.address_string eoa)) secret_x nonce))
    pure secret_x
