-- ===== src/System/Invariant.antt =====
-- Every secret in the history has its reason, whatever requests came in.
use accounts_superposition_s.Prelude.{
  ◌≡◌, refl, ◌⊎◌, inl, inr, Bytes, List, [], ◌∷◌, Bool, true, false, Option, if◌then◌else◌,
}
use accounts_superposition_s.Outcome.{Outcome, ok, err, panic, fatal}
use accounts_superposition_s.Exec.Emits.{Emits, emits_rules}
use accounts_superposition_s.Exec.Once.{Not}
use accounts_superposition_s.Exec.Grown.{
  Grown, still, Grown-trans, Grown-Added, Each, Each-Grown, Each-map,
}
use accounts_superposition_s.Model
use accounts_superposition_s.Exec.{Exec}
use accounts_superposition_s.World.{Event, History, Externals}
use accounts_superposition_s.Events.{is_secret, Reads-secret}
use accounts_superposition_s.Convertor.Effects.{
  create_solve_v2-Emits, mint_graph-Emits, payoff_graph-Emits,
}
use accounts_superposition_s.Client.Effects.{send_arguments-Emits_sent}
use accounts_superposition_s.Graph.Resolver.{Config, Context}
use accounts_superposition_s.Graph.Send.{ninelives_mint, claim_rewards}
use accounts_superposition_s.Graph.Effects.{
  check_minimum-Emits, context_eoa-Emits, picked_key-Emits, alarm-Emits,
  alarm_unless_ignorable-Emits, track_tx-Emits,
}
use accounts_superposition_s.Server.Auth.{Action, respond, serve}
use accounts_superposition_s.System.Lookups.{
  Lookups, has_created-Emits, statistics-Emits, serve_http-Emits,
}
use accounts_superposition_s.System.Provenance.{
  Justified, other-Justified, Justified-map, create_account_exec-Justified,
  request_secret-Justified,
}
use accounts_superposition_s.System.Requests.{
  Field, creates, requests, mints, claims, asks_publickey, asks_eoa, asks_created, asks_statistics,
  Arrival, resolve, resolve_all, continue_with, handle, history_of,
}

-- The field is one of the list.
abbrev pub Among : Field → List Field → Type 0
Among f [] = ⊥
Among f (g ∷ fs) = (g ≡ f) ⊎ Among f fs

-- The field is one of a request that came in.
abbrev pub Requested : List Arrival → Field → Type 0
Requested [] f = ⊥
Requested (a ∷ past) f = Among f a.fields ⊎ Requested past f

ruleset pieces = (
  emits_rules, check_minimum-Emits, context_eoa-Emits, picked_key-Emits, create_solve_v2-Emits,
  send_arguments-Emits_sent, track_tx-Emits,
)

module _ (x : Externals) (r : Config) where
  ninelives_mint-quiet :
      (ctx : Context) (mint : Model.Mint) (dryrun : Option Bool)
      → Emits (Not is_secret) (ninelives_mint x r ctx mint dryrun)
  unfolding ninelives_mint
  ninelives_mint-quiet ctx mint dryrun =
      search (pieces, alarm_unless_ignorable-Emits, mint_graph-Emits, Reads-secret) depth 30

  claim_rewards-quiet :
      (ctx : Context) (markets : List Bytes) (ms_ts : Bytes) (dryrun : Option Bool)
      → Emits (Not is_secret) (claim_rewards x r ctx markets ms_ts dryrun)
  unfolding claim_rewards
  claim_rewards-quiet ctx markets ms_ts dryrun =
      search (pieces, alarm-Emits, payoff_graph-Emits, Reads-secret) depth 30

  Lookups-secret : Lookups (Not is_secret)
  Lookups-secret = record { created = λ t. refl; secrets = λ t s. refl; rows = refl }

  module _ (asked : Field → Type 0) where
    abbrev pub Kept : History → History → Type 0
    Kept = Grown (Justified x r asked)

    quiet : {A : Type 0} (m : Exec Event A) (h : History) → Emits (Not is_secret) m → Kept h (m h).1
    quiet m h k = Grown-Added (other-Justified x r asked) (k.at h)

    resolve-Justified :
        (ctx : Context) (f : Field) (h : History) → asked f → Kept h (resolve x r ctx f h).1
    unfolding resolve
    resolve-Justified ctx (creates c mint dryrun) h a =
        create_account_exec-Justified x r asked ctx c mint dryrun h a
    resolve-Justified ctx (requests eoa nonce v sr ss dryrun) h a =
        request_secret-Justified x r asked ctx eoa nonce v sr ss dryrun h a
    resolve-Justified ctx (mints mint dryrun) h a = quiet _ h (ninelives_mint-quiet ctx mint dryrun)
    resolve-Justified ctx (claims markets ms_ts dryrun) h a =
        quiet _ h (claim_rewards-quiet ctx markets ms_ts dryrun)
    resolve-Justified ctx asks_publickey h a = still
    resolve-Justified ctx (asks_eoa address) h a = still
    resolve-Justified ctx (asks_created address) h a =
        quiet _ h (has_created-Emits x r Lookups-secret address)
    resolve-Justified ctx asks_statistics h a = quiet _ h (statistics-Emits x r Lookups-secret)

    stop_or_go :
        (b : Bool) {h h₁ h₂ : History} → Kept h h₁ → Kept h₁ h₂ → Kept h (if b then h₂ else h₁)
    stop_or_go true p q = Grown-trans p q
    stop_or_go false p q = p

    resolve_all-Justified :
        (ctx : Context) (fs : List Field) (h : History)
        → ((f : Field) → Among f fs → asked f)
        → Kept h (resolve_all x r ctx fs h)
    unfolding resolve_all
    resolve_all-Justified ctx [] h a = still
    resolve_all-Justified ctx (f ∷ fs) h a =
        stop_or_go _ (resolve-Justified ctx f h (a f (inl refl)))
          (resolve_all-Justified ctx fs _ (λ g m. a g (inr m)))

    continue_with-Justified :
        {H : Type 0} (fields : List Field) (o : Outcome (H × Action)) (h : History)
        → ((f : Field) → Among f fields → asked f)
        → Kept h (continue_with x r fields o h)
    continue_with-Justified fields (ok (headers, serve ctx)) h a =
        resolve_all-Justified ctx fields h a
    continue_with-Justified fields (ok (headers, respond status told)) h a = still
    continue_with-Justified fields (err e) h a = still
    continue_with-Justified fields panic h a = still
    continue_with-Justified fields (fatal e) h a = still

    pub handle-Justified :
        (admin_secret : Bytes) (a : Arrival) (h : History)
        → ((f : Field) → Among f a.fields → asked f)
        → Kept h (handle x r admin_secret a h)
    unfolding handle
    handle-Justified admin_secret a h all =
        Grown-trans
          (quiet _ h (serve_http-Emits x r Lookups-secret admin_secret a.snowflake a.request))
          (continue_with-Justified a.fields _ _ all)

  -- Whatever requests came in, every insertion of a secret into the database, for an address, has its
  -- reason in them: a request among them asked to create that address's account, and a transaction
  -- that opens it as asked was accepted earlier in the same history; or a request among them carried a
  -- signature that recovers that address from the service's key and the nonce that was inserted.
  pub history_of-Justified :
      (admin_secret : Bytes) (past : List Arrival)
      → Each (Justified x r (Requested past)) (history_of x r admin_secret past)
  unfolding history_of
  history_of-Justified admin_secret [] = tt
  history_of-Justified admin_secret (a ∷ past) =
      Each-Grown (handle-Justified (Requested (a ∷ past)) admin_secret a _ (λ f m. inl m))
        (Each-map _ (Justified-map x r (λ f. inr)) (history_of-Justified admin_secret past))
