-- ===== src/Graph/Created.antt =====
-- What a successful creation of an account has done.
use accounts_superposition_s.Prelude.{
  ℕ, ◌≡◌, refl, sym, ap, Bytes, ◌∷◌, Bool, true, false, not, Option, none, some, length, ◌==◌,
  ==_iff, arith, Bool-cases, inl, inr,
}
use accounts_superposition_s.Outcome.{Error, ok}
use accounts_superposition_s.Exec.{Exec, pure, raise, crash, ask, when, on_error, wrap, ◌>>=◌}
use accounts_superposition_s.Exec.Inversion.{
  Returned, pure-Returned, bind-Returned, wrap-Returned, on_error-Returned, refuse_if-Returned,
  raise-never,
}
use accounts_superposition_s.Go.{hex_encode, to_lower}
use accounts_superposition_s.Types.{FreshBackwards, fresh_backwards, zero_args}
use accounts_superposition_s.Model
use accounts_superposition_s.World.{
  Event, insert_secret, rand_read, Reply, answer, failed, History, Externals,
}
use accounts_superposition_s.Convertor.Created.{
  IsFresh, create_account_to_fresh_backwards_graph-IsFresh, IsTagged,
  tag_fresh_backwards_with_mint_graph-IsTagged,
}
use accounts_superposition_s.Convertor.{create_account_to_fresh_backwards_graph}
use accounts_superposition_s.Client.{send_arguments}
use accounts_superposition_s.Client.Sent.{call-Returned}
use accounts_superposition_s.Graph.Resolver.{
  Config, Context, is_dryrun, checked_secret, make_secret,
}
use accounts_superposition_s.Graph.Account.{tag_mint, insert, create_account_exec}
use accounts_superposition_s.Graph.Minted.{
  when-Returned, not_dry, IsDelivered, send_arguments-IsDelivered,
}
use accounts_superposition_s.Graph.Secrets.{not-eq-false}

-- The message is as it was, or has the operation of the mint appended.
abbrev pub WithMint :
    Externals → Option Model.Mint → Bytes → FreshBackwards → FreshBackwards → Type 0
WithMint x none eoa f f' = f' ≡ f
WithMint x (some mint) eoa f f' = IsTagged x x.asset_usdc mint eoa f f'

module _ (x : Externals) (r : Config) where
  tag_mint-Returned :
      (f : FreshBackwards) (eoa : Bytes) (mint : Option Model.Mint) {f' : FreshBackwards}
      {h h' : History}
      → Returned (tag_mint x r f eoa mint) h f' h'
      → WithMint x mint eoa f f'
  unfolding tag_mint
  tag_mint-Returned f eoa none p = sym (pure-Returned p).0
  tag_mint-Returned f eoa (some mint) p =
      tag_fresh_backwards_with_mint_graph-IsTagged x _ f x.asset_usdc mint eoa (wrap-Returned _ _ p)

  pub insert-Returned :
      (e : Event) {u : Unit {0}} {h h' : History}
      → Returned (insert x r e) h u h'
      → (x.exec_result e h ≡ answer u) × (h' ≡ e ∷ h)
  unfolding insert
  insert-Returned e p =
      call-Returned e (x.exec_result e) (on_error-Returned _ _ (λ e. raise-never _) p)

module _ (x : Externals) where
  checked_secret-Returned :
      (o : Reply Bytes) {secret : Bytes} {h h' : History}
      → Returned (checked_secret x o) h secret h'
      → (o ≡ answer secret) × (length secret ≡ 32) × (h ≡ h')
  unfolding checked_secret crash pure
  checked_secret-Returned (failed e) p = absurd (cc (p.value))
  checked_secret-Returned (answer b) p = elim (Bool-cases (length b == 32)) [
    | inl e ↦ (
      ground (arith, p.value),
      ground (arith, p.value, ==_iff (length b) 32),
      ground (arith, p.history),
    )
    | inr e ↦ absurd (ground (arith, p.value))
  ]

  pub make_secret-Returned :
      {secret : Bytes} {h h' : History}
      → Returned (make_secret x) h secret h'
      → (x.random_bytes 32 h ≡ answer secret) × (length secret ≡ 32) × (h' ≡ rand_read 32 ∷ h)
  unfolding make_secret ask ◌>>=◌
  make_secret-Returned {h} p =
      let (v, l, e) =
        checked_secret-Returned (x.random_bytes 32 h) {h = rand_read 32 ∷ h}
          (record { value = p.value; history = p.history }) in
      (v, l, sym e)

-- The transaction that opened an account: its message was made from the request, with the service's
-- key, and the node accepted it on the way to the factory.
pub record IsOpened (x : Externals) (r : Config) (c : Model.CreateAccount)
    (mint : Option Model.Mint) (hash : Bytes) (after_sending : History) : Type 0 where
  pub address : x.is_hex_address c.eoa_addr ≡ true
  pub fresh : FreshBackwards
  pub is_fresh : IsFresh r.acc_pub_key c fresh
  pub message : FreshBackwards
  pub tagged : WithMint x mint (x.hex_to_address c.eoa_addr) fresh message
  pub key : Bytes
  pub sender : Bytes
  pub gas : ℕ
  pub before_sending : History
  pub delivered :
      IsDelivered x r.safety_router_addr false r.chain_id key sender r.accounts_factory_addr
        (record (zero_args fresh_backwards) { fresh_backwards = message })
        before_sending
        hash
        gas
        after_sending

-- What lies behind the hash and the secret of a new account.
pub record IsCreated (x : Externals) (r : Config) (c : Model.CreateAccount)
    (mint : Option Model.Mint) (created : Model.CreateAccountExec) : Type 0 where
  pub hash : Bytes
  pub after_sending : History
  pub opened : IsOpened x r c mint hash after_sending
  pub secret : Bytes
  pub random : x.random_bytes 32 after_sending ≡ answer secret
  pub secret_size : length secret ≡ 32
  pub stored :
      x.exec_result
        (insert_secret
          (to_lower (x.address_string (x.hex_to_address c.eoa_addr)))
          (hex_encode secret))
        (rand_read 32 ∷ after_sending)
      ≡ answer tt
  pub hash_returned : created.hash ≡ x.hash_hex hash
  pub secret_returned : created.secret ≡ hex_encode secret

module _ (x : Externals) (r : Config) (ctx : Context) where
  -- The error path of the sending ends in an error.
  pub alarm_or_not-never :
      {A : Type 0} (b : Bool) (m : Exec Event (Unit {0})) (e : Error) (a : A) (h h' : History)
      → ¬ Returned (when b m >>= λ _. raise e) h a h'
  alarm_or_not-never b m e a h h' p =
      let (u, h₁, p₁, rest) = bind-Returned p in raise-never e a h₁ h' rest

  pub IsOpened-intro :
      (c : Model.CreateAccount) (mint : Option Model.Mint) (dryrun : Bool) (f0 f : FreshBackwards)
      (key sender hash : Bytes) (gas : ℕ) {report : Error → Exec Event (Bytes × ℕ)}
      {h h₁ h₂ h₃ h₄ h₅ : History}
      → dryrun ≡ false
      → Returned
          (wrap "create account: " (create_account_to_fresh_backwards_graph r.acc_pub_key c))
          h
          f0
          h₁
      → not (x.is_hex_address c.eoa_addr) ≡ false
      → Returned (tag_mint x r f0 (x.hex_to_address c.eoa_addr) mint) h₂ f h₃
      → ((e : Error) (a : Bytes × ℕ) (h h' : History) → ¬ Returned (report e) h a h')
      → Returned
          (on_error
            (send_arguments x r.safety_router_addr false r.chain_id key sender
              r.accounts_factory_addr
              (record (zero_args fresh_backwards) { fresh_backwards = f })
              dryrun)
            report)
          h₄
          (hash, gas)
          h₅
      → IsOpened x r c mint hash h₅
  IsOpened-intro c mint dryrun f0 f key sender hash gas {h₄ = h₄} {h₅} wet p₁ address p₃ never p₄ =
      record {
        address = not-eq-false _ address;
        fresh = f0;
        is_fresh =
            create_account_to_fresh_backwards_graph-IsFresh r.acc_pub_key c (wrap-Returned _ _ p₁);
        message = f;
        tagged = tag_mint-Returned x r f0 _ mint p₃;
        key = key;
        sender = sender;
        gas = gas;
        before_sending = h₄;
        delivered =
            send_arguments-IsDelivered x r.safety_router_addr false r.chain_id key sender
              r.accounts_factory_addr _ dryrun hash gas h₄ h₅ wet (on_error-Returned _ _ never p₄);
      }

  -- A creation that is no dry run and returns has had its message, built from the request with the
  -- service's key and with the mint's operation if there is one, accepted by the node as one
  -- transaction to the factory itself. Only then was a secret of 32 random bytes drawn and stored for
  -- the address, and that secret and that transaction's hash are returned.
  pub create_account_exec-IsCreated :
      (c : Model.CreateAccount) (mint : Option Model.Mint) (dryrun : Option Bool) (h : History)
      (created : Model.CreateAccountExec)
      → is_dryrun dryrun ≡ false
      → (create_account_exec x r ctx c mint dryrun h).0 ≡ ok created
      → IsCreated x r c mint created
  unfolding create_account_exec
  create_account_exec-IsCreated c mint dryrun h created wet p =
      let (f0, h₁, p₁, rest₁) = bind-Returned (record { value = p; history = refl }) in
      let (u₂, h₂, p₂, rest₂) = bind-Returned rest₁ in
      let (f, h₃, p₃, rest₃) = bind-Returned rest₂ in
      let (key, h₄, p₄, rest₄) = bind-Returned rest₃ in
      let (sent, h₅, p₅, rest₅) = bind-Returned rest₄ in
      let (secret, h₆, p₆, rest₆) = bind-Returned rest₅ in
      let (u₇, h₇, p₇, rest₇) = bind-Returned rest₆ in
      let (u₈, h₈, p₈, rest₈) = bind-Returned (when-Returned _ (not_dry _ wet) p₇) in
      let (random, size, e₆) = make_secret-Returned x p₆ in
      let (stored, e₈) = insert-Returned x r _ p₈ in
      let value = (pure-Returned rest₇).0 in
      record {
        hash = sent.0;
        after_sending = h₅;
        opened =
            IsOpened-intro c mint (is_dryrun dryrun) f0 f key.0 key.1 sent.0 sent.1 wet p₁
              (refuse_if-Returned _ _ p₂).0 p₃ (λ e. alarm_or_not-never _ _ _) p₅;
        secret = secret;
        random = random;
        secret_size = size;
        stored = rw (← e₆) stored;
        hash_returned = sym (ap (λ (c : Model.CreateAccountExec). c.hash) value);
        secret_returned = sym (ap (λ (c : Model.CreateAccountExec). c.secret) value);
      }
