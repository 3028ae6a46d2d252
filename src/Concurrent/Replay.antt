-- ===== src/Concurrent/Replay.antt =====
-- Two secret requests that run at the same time, in src/graph/schema.resolvers.go.
use accounts_superposition_s.Prelude.{
  ℕ, ◌≡◌, ◌≢◌, refl, ap, ◌∙◌, inl, inr, Bytes, [], ◌∷◌, false, Option, Bool, ℤ,
}
use accounts_superposition_s.Outcome.{ok}
use accounts_superposition_s.World.{insert_nonce_secret, answer, History, Externals}
use accounts_superposition_s.Go.{to_lower}
use accounts_superposition_s.Graph.Resolver.{Config, Context, is_dryrun}
use accounts_superposition_s.Graph.Account.{request_secret}
use accounts_superposition_s.Database.{Database, connected}
use accounts_superposition_s.Database.Unique.{connected-UniqueNonces}
use accounts_superposition_s.System.Provenance.{kept_as}
use accounts_superposition_s.System.Replay.{Used, request_secret-Stored}
use accounts_superposition_s.Concurrent.{through, Shared, everything, own, IsInterleaving}
use accounts_superposition_s.Concurrent.Order.{Before, asked_at, asked-now, one_first}

-- What was stored at some moment is used from then on.
placed-Used :
    (x : Externals) (i : ℕ) (text secret : Bytes) (nonce : ℤ) (b c : Shared)
    → x.exec_result (insert_nonce_secret text secret nonce) (everything b) ≡ answer tt
    → Before ((i, insert_nonce_secret text secret nonce) ∷ b) c
    → Used x text nonce (everything c)
unfolding everything
placed-Used x i text secret nonce b c stored Before.now = inl (refl, refl, stored)
placed-Used x i text secret nonce b (_ ∷ c) stored (Before.later _ _ before) =
    inr (placed-Used x i text secret nonce b c stored before)

module _ (x : Externals) (r : Config) (now : ℕ → History → History) (g : Shared) where
  -- The handler's insertion in what all have asked, and that it succeeded there.
  abbrev IsPlaced : ℕ → Bytes → Bytes → ℤ → Type 0
  IsPlaced i text secret nonce =
      (b : Shared) × Before ((i, insert_nonce_secret text secret nonce) ∷ b) g
      × (x.exec_result (insert_nonce_secret text secret nonce) (everything b) ≡ answer tt)

  request_secret-IsPlaced :
      (ctx : Context) (i : ℕ) (eoa : Bytes) (nonce v : ℤ) (sr ss : Bytes) (dryrun : Option Bool)
      (secret : Bytes)
      → IsInterleaving now g
      → is_dryrun dryrun ≡ false
      → own i g ≡ (request_secret (through (now i) x) r ctx eoa nonce v sr ss dryrun []).1
      → (request_secret (through (now i) x) r ctx eoa nonce v sr ss dryrun []).0 ≡ ok secret
      → IsPlaced i (kept_as x r eoa) secret nonce
  request_secret-IsPlaced ctx i eoa nonce v sr ss dryrun secret is wet whole p =
      let (h₁, _, stored, e) =
        request_secret-Stored (through (now i) x) r ctx eoa nonce v sr ss dryrun [] secret wet p in
      let (b, before, same) = asked_at i _ h₁ g (whole ∙ e) in
      let moment = asked-now now i _ b g is before in (b, before, rw (← moment, same) stored)

module _ (x : Externals) (d : Database) (r : Config) (now : ℕ → History → History)
    (g : Shared) where
  -- A nonce buys one secret also when requests overlap: of two handlers that run at the same time,
  -- among any number of others, and ask for a secret for the same address and nonce, at most one
  -- hands out a secret, however their events are interleaved. Neither is a dry run, each is answered
  -- as of the moment it asks, the events of each are those of its whole run, and the database is
  -- the one of the schema.
  pub request_secret-no_race :
      (ctx ctx' : Context) (i j : ℕ) (eoa again : Bytes) (nonce v v' : ℤ) (sr ss sr' ss' : Bytes)
      (dryrun dryrun' : Option Bool) (secret other : Bytes)
      → IsInterleaving now g
      → i ≢ j
      → is_dryrun dryrun ≡ false
      → is_dryrun dryrun' ≡ false
      → x.hex_to_address again ≡ x.hex_to_address eoa
      → own i g
        ≡ (request_secret (through (now i) (connected d x)) r ctx eoa nonce v sr ss dryrun []).1
      → own j g
        ≡ (request_secret
            (through (now j) (connected d x))
            r
            ctx'
            again
            nonce
            v'
            sr'
            ss'
            dryrun'
            []).1
      → (request_secret (through (now i) (connected d x)) r ctx eoa nonce v sr ss dryrun []).0
        ≡ ok secret
      → (request_secret
          (through (now j) (connected d x))
          r
          ctx'
          again
          nonce
          v'
          sr'
          ss'
          dryrun'
          []).0
        ≢ ok other
  request_secret-no_race ctx ctx' i j eoa again nonce v v' sr ss sr' ss' dryrun dryrun' secret other
        is differ wet wet' same_eoa whole whole' p q =
      let X = connected d x in
      let text = kept_as x r eoa in
      let (b, before, stored) =
        request_secret-IsPlaced X r now g ctx i eoa nonce v sr ss dryrun secret is wet whole p in
      let (c, before', stored') =
        request_secret-IsPlaced X r now g ctx' j again nonce v' sr' ss' dryrun' other is wet' whole'
          q in
      let same : kept_as x r again ≡ text = ap (λ a. to_lower (x.address_string a)) same_eoa in
      let stored'' : X.exec_result (insert_nonce_secret text other nonce) (everything c)
          ≡ answer tt =
        rw (← same) stored' in
      elim (one_first i j _ _ b c g differ before before') [
        | inl first ↦
            connected-UniqueNonces x d text other nonce (everything c) stored''
              (placed-Used X i text secret nonce b c stored first)
        | inr first ↦
            connected-UniqueNonces x d text secret nonce (everything b) stored
              (placed-Used X j text other nonce c b stored'' (rw (← same) first))
      ]
