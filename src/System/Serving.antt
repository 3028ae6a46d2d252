-- ===== src/System/Serving.antt =====
-- A request for a secret that is signed as it has to be gets one.
use accounts_superposition_s.Prelude.{
  ℕ, ◌≡◌, ◌≢◌, refl, inl, inr, Bytes, Bool, true, false, Option, length, ltb_of_le, ◌==◌,
  bytes_eq_iff, ℤ, arith,
}
use accounts_superposition_s.Outcome.{Error, ok}
use accounts_superposition_s.Exec.{Exec, ask, lift, on_error, ◌>>=◌}
use accounts_superposition_s.Exec.Emits.{Added, Added-trans, same, more}
use accounts_superposition_s.Exec.Once.{Not}
use accounts_superposition_s.Exec.Along.{Returned-Added}
use accounts_superposition_s.Graph.Created.{make_secret-Returned}
use accounts_superposition_s.Exec.Progress.{
  Returns, Returns-pure, Returns-bind, Returns-bind_at, Returns-refuse_if, Returns-when,
}
use accounts_superposition_s.Exec.Onward.{
  wrapped-Returned, lifted-Returned, passed-Returned, Returns-after, Returns-bind-Added,
  Returns-bind_with,
}
use accounts_superposition_s.Go.{hex_encode}
use accounts_superposition_s.World.{Event, insert_nonce_secret, Reply, answer, History, Externals}
use accounts_superposition_s.Events.{is_secret, Reads-secret}
use accounts_superposition_s.Cooperation.{Answers}
use accounts_superposition_s.ClientAddr.{get_client_addr}
use accounts_superposition_s.Client.{call}
use accounts_superposition_s.Graph.Resolver.{Config, Context}
use accounts_superposition_s.Graph.Account.{check_code, request_secret}
use accounts_superposition_s.Graph.Steps.{make_secret-Returns, insert-Returns}
use accounts_superposition_s.Graph.Effects.{check_code-Emits, make_secret-Emits}
use accounts_superposition_s.Graph.Secrets.{IsSignedBy}
use accounts_superposition_s.System.Provenance.{kept_as}
use accounts_superposition_s.System.Replay.{Consumes, Used}

-- The outside of an address that may ask for a secret: its account has code, the random source gives
-- 32 bytes, and the database takes 32 bytes in hex with a nonce that it does not have yet.
pub record IsServing (x : Externals) (account text : Bytes) (nonce : ℤ) : Type 0 where
  pub deployed : (h : History) → (c : Bytes) × (x.code account h ≡ answer c) × (length c ≢ 0)
  pub random : (h : History) → (b : Bytes) × (x.random_bytes 32 h ≡ answer b) × (length b ≡ 32)
  pub inserts :
      (secret : Bytes) (h : History)
      → length secret ≡ 32
      → ¬ Used x text nonce h
      → Answers (x.exec_result (insert_nonce_secret text (hex_encode secret) nonce) h)

module _ (x : Externals) (text : Bytes) (nonce : ℤ) where
  Consumes-secret : (e : Event) (h : History) → Consumes x text nonce e h → is_secret e ≡ true
  Consumes-secret (insert_nonce_secret t s n) h c = refl
  Consumes-secret _ h c = absurd c

  -- Events that insert no secret use up no nonce.
  Used-Reads :
      {h h' : History} → Added (Not is_secret) h h' → Used x text nonce h' → Used x text nonce h
  Used-Reads same u = u
  Used-Reads (more e p q) (inl c) = absurd (cc (Consumes-secret e _ c, p))
  Used-Reads (more e p q) (inr u) = Used-Reads q u

nonzero-== : (n : ℕ) → n ≢ 0 → (n == 0) ≡ false
nonzero-== n h = ground (arith)

asked-ok :
    {A : Type 0} (e : Event) (reply : History → Reply A) (recover : Error → Exec Event A)
    (h : History) (a : A)
    → reply h ≡ answer a
    → (on_error (call e reply) recover h).0 ≡ ok a
unfolding on_error call ask lift ◌>>=◌
asked-ok e reply recover h a p = rw p refl

module _ (x : Externals) (r : Config) where
  check_code-Returns :
      (account : Bytes) (h : History)
      → ((h : History) → (c : Bytes) × (x.code account h ≡ answer c) × (length c ≢ 0))
      → Returns (check_code x r account) h
  unfolding check_code
  check_code-Returns account h deployed =
      let (c, code, some_code) = deployed h in
      Returns-when _ _ h (
        Returns-bind_at _ _ h c (asked-ok _ _ _ h c code)
          (Returns-refuse_if _ _ _ (nonzero-== (length c) some_code)))

  -- An address whose key has signed the service's key and a nonce, that has an account and has not
  -- used the nonce, is given a secret, when the outside answers.
  pub request_secret-Returns :
      (ctx : Context) (eoa : Bytes) (nonce v : ℤ) (sr ss : Bytes) (dryrun : Option Bool)
      (h : History)
      → x.is_hex_address eoa ≡ true
      → IsSignedBy x r.acc_pub_key (x.hex_to_address eoa) nonce v sr ss
      → IsServing x
          (get_client_addr x r.accounts_factory_addr (x.hex_to_address eoa))
          (kept_as x r eoa)
          nonce
      → ¬ Used x (kept_as x r eoa) nonce h
      → Returns (request_secret x r ctx eoa nonce v sr ss dryrun) h
  unfolding request_secret
  request_secret-Returns ctx eoa nonce v sr ss dryrun h hex signed serving fresh =
      Returns-after _ _ h (passed-Returned _ _ h (rw hex refl)) (
        Returns-after _ _ h (wrapped-Returned _ _ h signed.r_bytes signed.r_decoded) (
          Returns-after _ _ h (wrapped-Returned _ _ h signed.s_bytes signed.s_decoded) (
            Returns-after _ _ h (passed-Returned _ _ h (ltb_of_le _ _ signed.s_small)) (
              Returns-after _ _ h (lifted-Returned _ h signed.v_byte signed.v_decoded) (
                Returns-after _ _ h
                  (wrapped-Returned _ _ h signed.pub_key (rw signed.recovered refl))
                  (Returns-after _ _ h
                    (passed-Returned _ _ h (rw (signed.owner, (bytes_eq_iff _ _).1 refl) refl))
                    (Returns-bind-Added _ _ h (check_code-Emits x Reads-secret r _)
                      (check_code-Returns _ h serving.deployed)
                      λ u h₁ read.
                        Returns-bind_with _ _ h₁ (make_secret-Returns x h₁ (serving.random h₁))
                          λ secret h₂ made.
                            let drawn = Returned-Added (make_secret-Emits x Reads-secret) made in
                            Returns-bind _ _ h₂
                              (Returns-when _ _ h₂ (
                                insert-Returns x r _ h₂ (
                                  serving.inserts secret h₂ (make_secret-Returned x made).1 (λ u.
                                    fresh (Used-Reads x _ nonce (Added-trans read drawn) u)))))
                              λ u h₃. Returns-pure _ h₃)))))))
