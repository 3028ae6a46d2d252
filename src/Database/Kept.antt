-- ===== src/Database/Kept.antt =====
-- Where the secret of a new account is in the history.
use accounts_superposition_s.Prelude.{◌≡◌, refl, sym, ap, Bytes, ◌∷◌, Bool, false, Option}
use accounts_superposition_s.Outcome.{ok}
use accounts_superposition_s.Exec.Emits.{Added}
use accounts_superposition_s.Exec.Along.{Returned-Added}
use accounts_superposition_s.Exec.Inversion.{pure-Returned, bind-Returned}
use accounts_superposition_s.Go.{hex_encode}
use accounts_superposition_s.Model
use accounts_superposition_s.World.{insert_secret, answer, History, Externals}
use accounts_superposition_s.Graph.Resolver.{Config, Context, is_dryrun}
use accounts_superposition_s.Graph.Account.{create_account_exec}
use accounts_superposition_s.Graph.Effects.{track_tx-Emits}
use accounts_superposition_s.Graph.Created.{make_secret-Returned, insert-Returned}
use accounts_superposition_s.Graph.Minted.{when-Returned, not_dry}
use accounts_superposition_s.System.Provenance.{kept_as}
use accounts_superposition_s.Events.{Reads-Any}

-- The secret was drawn, and inserted for the text, on the way to the history `h'`.
pub record IsKept (x : Externals) (text shown : Bytes) (h' : History) : Type 0 where
  pub secret : Bytes
  pub shown_as : shown ≡ hex_encode secret
  pub before : History
  pub drawn : (h : History) × (x.random_bytes 32 h ≡ answer secret)
  pub stored : x.exec_result (insert_secret text (hex_encode secret)) before ≡ answer tt
  pub later : Added (λ _. Unit {0}) (insert_secret text (hex_encode secret) ∷ before) h'

module _ (x : Externals) (r : Config) (ctx : Context) where
  -- The secret that a creation returns has been inserted for the address.
  pub create_account_exec-IsKept :
      (c : Model.CreateAccount) (mint : Option Model.Mint) (dryrun : Option Bool) (h : History)
      (created : Model.CreateAccountExec)
      → is_dryrun dryrun ≡ false
      → (create_account_exec x r ctx c mint dryrun h).0 ≡ ok created
      → IsKept x
          (kept_as x r c.eoa_addr)
          created.secret
          (create_account_exec x r ctx c mint dryrun h).1
  unfolding create_account_exec
  create_account_exec-IsKept c mint dryrun h created wet p =
      let (f0, h₁, p₁, rest₁) = bind-Returned (record { value = p; history = refl }) in
      let (u₂, h₂, p₂, rest₂) = bind-Returned rest₁ in
      let (f, h₃, p₃, rest₃) = bind-Returned rest₂ in
      let (key, h₄, p₄, rest₄) = bind-Returned rest₃ in
      let (sent, h₅, p₅, rest₅) = bind-Returned rest₄ in
      let (secret, h₆, p₆, rest₆) = bind-Returned rest₅ in
      let (u₇, h₇, p₇, rest₇) = bind-Returned rest₆ in
      let (u₈, h₈, p₈, rest₈) = bind-Returned (when-Returned _ (not_dry _ wet) p₇) in
      let (random, size, e₆) = make_secret-Returned x p₆ in
      let (stored, e₈) = insert-Returned x r _ p₈ in
      let (value, last) = pure-Returned rest₇ in
      rw (← last) (record {
        secret = secret;
        shown_as = sym (ap (λ (c : Model.CreateAccountExec). c.secret) value);
        before = h₆;
        drawn = (h₅, random);
        stored = stored;
        later = rw (← e₈) (Returned-Added (track_tx-Emits x Reads-Any _ _ _ _ tt) rest₈);
      })
