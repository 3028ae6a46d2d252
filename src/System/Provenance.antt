-- ===== src/System/Provenance.antt =====
-- Where the secrets in the database come from.
use accounts_superposition_s.Prelude.{◌≡◌, ◌∷◌, refl, Bytes, Bool, true, false, not, Option, ℤ}
use accounts_superposition_s.Exec.{Exec, raise, ask, lift, on_error, pure, ◌>>=◌}
use accounts_superposition_s.Exec.Emits.{Added, Emits, emits_rules}
use accounts_superposition_s.Exec.Once.{Not}
use accounts_superposition_s.Exec.Along.{Returned-Added}
use accounts_superposition_s.Exec.Grown.{Grown, still, grow, Grown-Added, Grown-bind, Grown-when}
use accounts_superposition_s.Exec.Inversion.{Returned, refuse_if-Returned}
use accounts_superposition_s.Go.{to_lower}
use accounts_superposition_s.Model
use accounts_superposition_s.World.{
  Event, insert_secret, insert_nonce_secret, Reply, answer, failed, History, Externals,
}
use accounts_superposition_s.Events.{is_secret, Reads-secret, Any, Reads-Any}
use accounts_superposition_s.Convertor.Effects.{create_account_to_fresh_backwards_graph-Emits}
use accounts_superposition_s.Client.{call}
use accounts_superposition_s.Client.Effects.{send_arguments-Emits_sent}
use accounts_superposition_s.Graph.Resolver.{Config, Context, is_dryrun}
use accounts_superposition_s.Graph.Account.{insert, create_account_exec, request_secret}
use accounts_superposition_s.Graph.Effects.{
  pick_private_key-Emits, alarm-Emits, make_secret-Emits, tag_mint-Emits, check_code-Emits,
  track_tx-Emits,
}
use accounts_superposition_s.Graph.Created.{IsOpened, IsOpened-intro, alarm_or_not-never}
use accounts_superposition_s.Graph.Secrets.{IsSignedBy, IsSignedBy-intro}
use accounts_superposition_s.System.Requests.{Field, creates, requests}

pub not-eq-true : (b : Bool) → not b ≡ true → b ≡ false
not-eq-true true e = cc
not-eq-true false e = refl

module _ (x : Externals) (r : Config) where
  -- The text under which an address is kept.
  abbrev pub kept_as : Bytes → Bytes
  kept_as address = to_lower (x.address_string (x.hex_to_address address))

  insert-answered :
      (e : Event) (h : History) (o : Reply (Unit {0}))
      → x.exec_result e h ≡ o
      → (insert x r e h).1 ≡ e ∷ h
  unfolding insert on_error call ask lift raise ◌>>=◌
  insert-answered e h (answer u) p = rw p refl
  insert-answered e h (failed t) p = rw p refl

  Grown-insert :
      {J : Event → History → Type 0} (e : Event) (h : History)
      → J e h
      → Grown J h (insert x r e h).1
  Grown-insert e h j = rw (insert-answered e h _ refl) (grow e j still)

  Grown-pure :
      {J : Event → History → Type 0} {A : Type 0} (a : A) (h : History)
      → Grown J h (pure {E = Event} a h).1
  unfolding pure
  Grown-pure a h = still

  module _ (asked : Field → Type 0) where
    -- The account of the text was opened for a request that was made, by a transaction that was
    -- accepted before.
    pub record OpenedBy (text : Bytes) (h : History) : Type 0 where
      pub request : Model.CreateAccount
      pub mint : Option Model.Mint
      pub dryrun : Option Bool
      pub requested : asked (creates request mint dryrun)
      pub hash : Bytes
      pub after_sending : History
      pub opened : IsOpened x r request mint hash after_sending
      pub earlier : Added Any after_sending h
      pub kept : text ≡ kept_as request.eoa_addr

    -- The owner of the text has signed the service's key and the nonce in a request that was made.
    pub record SignedBy (text : Bytes) (nonce : ℤ) : Type 0 where
      pub address : Bytes
      pub sig_v : ℤ
      pub sig_r : Bytes
      pub sig_s : Bytes
      pub dryrun : Option Bool
      pub requested : asked (requests address nonce sig_v sig_r sig_s dryrun)
      pub signed : IsSignedBy x r.acc_pub_key (x.hex_to_address address) nonce sig_v sig_r sig_s
      pub kept : text ≡ kept_as address

    -- The insertion of a secret after `h` has its reason.
    abbrev pub Justified : Event → History → Type 0
    Justified (insert_secret text secret) h = OpenedBy text h
    Justified (insert_nonce_secret text secret nonce) h = SignedBy text nonce
    Justified _ h = Unit

    pub other-Justified : (e : Event) (h : History) → Not is_secret e → Justified e h
    other-Justified (insert_secret text secret) h p = absurd (cc (p))
    other-Justified (insert_nonce_secret text secret nonce) h p = absurd (cc (p))
    other-Justified _ h p = tt

    -- A step that inserts no secret, and what comes after it.
    step :
        {A B : Type 0} (m : Exec Event A) (f : A → Exec Event B) (h : History)
        → Emits (Not is_secret) m
        → ((a : A) (h' : History) → Returned m h a h' → Grown Justified h' (f a h').1)
        → Grown Justified h ((m >>= f) h).1
    step m f h km kf = Grown-bind m f h (Grown-Added other-Justified (km.at h)) kf

    pub create_account_exec-Justified :
        (ctx : Context) (c : Model.CreateAccount) (mint : Option Model.Mint) (dryrun : Option Bool)
        (h : History)
        → asked (creates c mint dryrun)
        → Grown Justified h (create_account_exec x r ctx c mint dryrun h).1
    unfolding create_account_exec
    create_account_exec-Justified ctx c mint dryrun h requested =
        step _ _ h (search (emits_rules, create_account_to_fresh_backwards_graph-Emits)) λ f0 h₁ p₁.
          step _ _ h₁ (search emits_rules) λ u₂ h₂ p₂.
            step _ _ h₂ (tag_mint-Emits x Reads-secret r f0 _ mint) λ f h₃ p₃.
              step _ _ h₃ (search (emits_rules, pick_private_key-Emits, Reads-secret)) λ key h₄ p₄.
                step _ _ h₄
                  (search (emits_rules, send_arguments-Emits_sent, alarm-Emits, Reads-secret) depth
                    30)
                  λ sent h₅ p₅. step _ _ h₅ (make_secret-Emits x Reads-secret) λ secret h₆ p₆.
                    Grown-bind _ _ h₆
                      (Grown-when _ _ h₆ λ wet.
                        Grown-bind _ _ h₆
                          (Grown-insert _ h₆ (record {
                            request = c;
                            mint = mint;
                            dryrun = dryrun;
                            requested = requested;
                            hash = sent.0;
                            after_sending = h₅;
                            opened =
                                IsOpened-intro x r ctx c mint (is_dryrun dryrun) f0 f key.0 key.1
                                  sent.0 sent.1 (not-eq-true _ wet) p₁ (refuse_if-Returned _ _ p₂).0
                                  p₃ (λ e. alarm_or_not-never x r ctx _ _ _) p₅;
                            earlier = Returned-Added (make_secret-Emits x Reads-Any) p₆;
                            kept = refl;
                          }))
                          (λ _ h₇ _.
                            Grown-Added other-Justified
                              ((track_tx-Emits x Reads-secret _ _ _ _ refl).at h₇)))
                      (λ _ h₈ _. Grown-pure _ h₈)

    pub request_secret-Justified :
        (ctx : Context) (eoa : Bytes) (nonce sig_v : ℤ) (sig_r sig_s : Bytes) (dryrun : Option Bool)
        (h : History)
        → asked (requests eoa nonce sig_v sig_r sig_s dryrun)
        → Grown Justified h (request_secret x r ctx eoa nonce sig_v sig_r sig_s dryrun h).1
    unfolding request_secret
    request_secret-Justified ctx eoa nonce sig_v sig_r sig_s dryrun h requested =
        step _ _ h (search emits_rules) λ u₁ h₁ p₁. step _ _ h₁ (search emits_rules) λ sr h₂ p₂.
          step _ _ h₂ (search emits_rules) λ ss h₃ p₃. step _ _ h₃ (search emits_rules) λ u₄ h₄ p₄.
            step _ _ h₄ (search emits_rules) λ v h₅ p₅.
              step _ _ h₅ (search emits_rules) λ pub_key h₆ p₆.
                step _ _ h₆ (search emits_rules) λ u₇ h₇ p₇.
                  step _ _ h₇ (check_code-Emits x Reads-secret r _) λ u₈ h₈ p₈.
                    step _ _ h₈ (make_secret-Emits x Reads-secret) λ secret h₉ p₉.
                      Grown-bind _ _ h₉
                        (Grown-when _ _ h₉ λ wet. Grown-insert _ h₉ (record {
                          address = eoa;
                          sig_v = sig_v;
                          sig_r = sig_r;
                          sig_s = sig_s;
                          dryrun = dryrun;
                          requested = requested;
                          signed =
                              IsSignedBy-intro x r.acc_pub_key (x.hex_to_address eoa) nonce sig_v
                                sig_r sig_s sr ss v pub_key p₂ p₃ (refuse_if-Returned _ _ p₄).0 p₅
                                p₆ (refuse_if-Returned _ _ p₇).0;
                          kept = refl;
                        }))
                        (λ _ h₁₀ _. Grown-pure _ h₁₀)

  -- More requests were made.
  OpenedBy-map :
      {asked more : Field → Type 0} {text : Bytes} {h : History}
      → ((f : Field) → asked f → more f)
      → OpenedBy asked text h
      → OpenedBy more text h
  OpenedBy-map k o = record {
    request = o.request;
    mint = o.mint;
    dryrun = o.dryrun;
    requested = k _ o.requested;
    hash = o.hash;
    after_sending = o.after_sending;
    opened = o.opened;
    earlier = o.earlier;
    kept = o.kept;
  }

  SignedBy-map :
      {asked more : Field → Type 0} {text : Bytes} {nonce : ℤ}
      → ((f : Field) → asked f → more f)
      → SignedBy asked text nonce
      → SignedBy more text nonce
  SignedBy-map k s = record {
    address = s.address;
    sig_v = s.sig_v;
    sig_r = s.sig_r;
    sig_s = s.sig_s;
    dryrun = s.dryrun;
    requested = k _ s.requested;
    signed = s.signed;
    kept = s.kept;
  }

  pub Justified-map :
      {asked more : Field → Type 0}
      → ((f : Field) → asked f → more f)
      → (e : Event) (h : History) → Justified asked e h
      → Justified more e h
  Justified-map k (insert_secret text secret) h j = OpenedBy-map k j
  Justified-map k (insert_nonce_secret text secret nonce) h j = SignedBy-map k j
  Justified-map k _ h j = tt
