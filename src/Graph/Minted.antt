-- ===== src/Graph/Minted.antt =====
-- What a successful mint has put on the chain.
use accounts_superposition_s.Prelude.{
  ℕ, ◌≡◌, refl, sym, ◌∙◌, String, Bytes, [], ◌∷◌, Bool, true, false, not, Option, none, some, ℤ,
  arith,
}
use accounts_superposition_s.Outcome.{Error, ok}
use accounts_superposition_s.Exec.{pure, raise, crash, ◌>>=◌}
use accounts_superposition_s.Exec.Inversion.{
  Returned, pure-Returned, lift-Returned, bind-Returned, wrap-Returned, on_error-Returned,
  refuse_if-Returned, raise-never,
}
use accounts_superposition_s.Go.{set_string}
use accounts_superposition_s.Types.{Args, SolveArgs}
use accounts_superposition_s.Model
use accounts_superposition_s.World.{Event, insert_transaction, answer, History, Externals}
use accounts_superposition_s.ClientAddr.{get_client_addr}
use accounts_superposition_s.Convertor.Signed.{
  IsMint, create_solve_args_sig_args_mint_graph-IsMint, IsSolveV2, create_solve_v2-IsSolveV2,
  answered,
}
use accounts_superposition_s.Client.{send_arguments}
use accounts_superposition_s.Client.Sent.{asked, receiver, wrapped, IsSent, send-IsSent}
use accounts_superposition_s.Graph.Resolver.{
  Config, Context, authed_of, is_dryrun, prog_dalek, track_tx,
}
use accounts_superposition_s.Exec.{Exec, ask, when}
use accounts_superposition_s.Exec.Emits.{Added, Added-trans, Emits-refuse_if}
use accounts_superposition_s.Exec.Along.{Returned-Added}
use accounts_superposition_s.Events.{Any, Reads-Any}
use accounts_superposition_s.Convertor.Effects.{mint_graph-Emits}
use accounts_superposition_s.Graph.Effects.{
  check_minimum-Emits, context_eoa-Emits, picked_key-Emits,
}
use accounts_superposition_s.Graph.Secrets.{not-eq-false}
use accounts_superposition_s.Graph.Send.{
  above, check_minimum, context_eoa, alarm_unless_ignorable, ninelives_mint,
}

context_eoa-Returned :
    (o : Option Bytes) {eoa : Bytes} {h h' : History}
    → Returned (context_eoa o) h eoa h'
    → o ≡ some eoa
unfolding context_eoa pure raise
context_eoa-Returned none p = absurd (cc (p.value))
context_eoa-Returned (some e) p = ground (arith, p.value)

check_minimum-Returned :
    (m : ℤ) (amt : Option ℤ) {u : Unit {0}} {h h' : History}
    → Returned (check_minimum m amt) h u h'
    → (z : ℤ) × (amt ≡ some z) × (above m z ≡ false)
unfolding check_minimum crash
check_minimum-Returned m none p = absurd (cc (p.value))
check_minimum-Returned m (some z) p = (z, refl, (refuse_if-Returned _ _ p).0)

-- A message that was sent through `SendArguments`, as the calldata of one accepted transaction.
pub record IsDelivered (x : Externals) (router : Bytes) (use_router : Bool) (chain_id : ℤ)
    (key sender to : Bytes) (args : Args) (h : History) (hash : Bytes) (gas : ℕ) (h' : History)
    : Type 0 where
  pub encoded : Bytes
  pub serialised : x.serialize_args args ≡ answer encoded
  pub sent :
      IsSent x chain_id key
        (asked sender (receiver router use_router to) (wrapped x use_router to encoded) 0)
        0
        h
        hash
        gas
        h'

pub when-Returned :
    (b : Bool) {m : Exec Event (Unit {0})} {u : Unit {0}} {h h' : History}
    → b ≡ true
    → Returned (when b m) h u h'
    → Returned m h u h'
unfolding when
when-Returned true e p = p
when-Returned false e p = absurd (cc (e))

pub not_dry : (b : Bool) → b ≡ false → not b ≡ true
not_dry true e = absurd (cc (e))
not_dry false e = refl

track_tx-Returned :
    (x : Externals) (eoa hash : Bytes) (gas : ℕ) (desc : String) {u : Unit {0}} {h h' : History}
    → Returned (track_tx x eoa hash gas desc) h u h'
    → insert_transaction eoa hash gas desc ∷ h ≡ h'
unfolding track_tx ask pure ◌>>=◌
track_tx-Returned x eoa hash gas desc p = p.history

module _ (x : Externals) where
  pub send_arguments-IsDelivered :
      (router : Bytes) (use_router : Bool) (chain_id : ℤ) (key sender to : Bytes) (args : Args)
      (dryrun : Bool) (hash : Bytes) (gas : ℕ) (h h' : History)
      → dryrun ≡ false
      → Returned
          (send_arguments x router use_router chain_id key sender to args dryrun)
          h
          (hash, gas)
          h'
      → IsDelivered x router use_router chain_id key sender to args h hash gas h'
  unfolding send_arguments
  send_arguments-IsDelivered router use_router chain_id key sender to args true hash gas h h' d p =
      absurd (cc (d))
  send_arguments-IsDelivered router use_router chain_id key sender to args false hash gas h h' d p =
      let (encoded, h₁, p₁, rest₁) = bind-Returned p in
      let (v, e) = lift-Returned (wrap-Returned _ _ p₁) in
      record {
        encoded = encoded;
        serialised = answered _ v;
        sent = rw e (
            send-IsSent x router use_router chain_id key sender to encoded none hash gas h₁ h'
              rest₁);
      }

module _ (x : Externals) (r : Config) (ctx : Context) where
  -- The error paths of the resolver end in an error.
  alarm_then_raise-never :
      {A : Type 0} (report prefixed : Error → Error) (e : Error) (a : A) (h h' : History)
      → ¬ Returned (alarm_unless_ignorable x r ctx e (report e) >>= λ _. raise (prefixed e)) h a h'
  alarm_then_raise-never report prefixed e a h h' p =
      let (u, h₁, p₁, rest) = bind-Returned p in raise-never (prefixed e) a h₁ h' rest

-- What lies behind a mint's transaction hash.
pub record IsMinted (x : Externals) (r : Config) (ctx : Context) (mint : Model.Mint) (h : History)
    (tx : Bytes) (h' : History) : Type 0 where
  pub enabled : r.feature_mint_disabled ≡ false
  pub authed : authed_of ctx ≡ true
  pub eoa : Bytes
  pub user : ctx.eoa ≡ some eoa
  pub amount : ℤ
  pub amount_read : set_string mint.amount ≡ some amount
  pub enough : above r.minimum_amount amount ≡ false
  pub operation : SolveArgs
  pub is_mint :
      IsMint x x.asset_usdc mint.market mint.outcome mint.amount mint.referrer eoa mint.permit
        mint.ms_ts operation
  pub before_signing : History
  pub earlier : Added Any h before_signing
  pub after_signing : History
  pub args : Args
  pub signed :
      IsSolveV2 x prog_dalek
        (record { args = operation ∷ []; permit_owner = eoa; transfer_owner = eoa })
        before_signing
        args
        after_signing
  pub key : Bytes
  pub sender : Bytes
  pub hash : Bytes
  pub gas : ℕ
  pub after_sending : History
  pub delivered :
      IsDelivered x r.safety_router_addr true r.chain_id key sender
        (get_client_addr x r.accounts_factory_addr eoa)
        args
        after_signing
        hash
        gas
        after_sending
  pub tracked :
      h' ≡ insert_transaction (x.address_string eoa) (x.hash_hex hash) gas "mint" ∷ after_sending
  pub hash_returned : tx ≡ x.hash_hex hash

module _ (x : Externals) (r : Config) (ctx : Context) where
  -- A mint that is no dry run and returns a hash was enabled, authenticated and not below the minimum
  -- amount. One mint operation, decoded from the request, its permit included, with the context's
  -- account as recipient, was signed after the call began with that account as both owners, and was
  -- then accepted by the node as the calldata of one transaction, which goes to the safety router with
  -- the account's own contract in front. The last event of the call records that transaction for the
  -- account, and its hash is returned.
  pub ninelives_mint-IsMinted :
      (mint : Model.Mint) (dryrun : Option Bool) (h : History) (tx : Bytes)
      → is_dryrun dryrun ≡ false
      → (ninelives_mint x r ctx mint dryrun h).0 ≡ ok tx
      → IsMinted x r ctx mint h tx (ninelives_mint x r ctx mint dryrun h).1
  unfolding ninelives_mint
  ninelives_mint-IsMinted mint dryrun h tx wet p =
      let (u₁, h₁, p₁, rest₁) = bind-Returned (record { value = p; history = refl }) in
      let (u₂, h₂, p₂, rest₂) = bind-Returned rest₁ in
      let (u₃, h₃, p₃, rest₃) = bind-Returned rest₂ in
      let (eoa, h₄, p₄, rest₄) = bind-Returned rest₃ in
      let (key, h₅, p₅, rest₅) = bind-Returned rest₄ in
      let (f, h₆, p₆, rest₆) = bind-Returned rest₅ in
      let (args, h₇, p₇, rest₇) = bind-Returned rest₆ in
      let (sent, h₈, p₈, rest₈) = bind-Returned rest₇ in
      let (u₉, h₉, p₉, rest₉) = bind-Returned rest₈ in
      let (amount, amount_read, enough) = check_minimum-Returned _ _ p₂ in
      let made = on_error-Returned _ _ (alarm_then_raise-never x r ctx _ _) p₆ in
      record {
        enabled = (refuse_if-Returned _ _ p₁).0;
        authed = not-eq-false _ (refuse_if-Returned _ _ p₃).0;
        eoa = eoa;
        user = context_eoa-Returned _ p₄;
        amount = amount;
        amount_read = amount_read;
        enough = enough;
        operation = f.args;
        is_mint =
            create_solve_args_sig_args_mint_graph-IsMint x prog_dalek x.asset_usdc mint.market
              mint.outcome mint.amount mint.referrer eoa mint.permit mint.ms_ts f h₅ h₆ made;
        before_signing = h₆;
        earlier = Added-trans (Returned-Added (Emits-refuse_if _ _) p₁) (
            Added-trans (Returned-Added (check_minimum-Emits _ _) p₂) (
              Added-trans (Returned-Added (Emits-refuse_if _ _) p₃) (
                Added-trans (Returned-Added (context_eoa-Emits ctx.eoa) p₄) (
                  Added-trans (Returned-Added (picked_key-Emits x Reads-Any r) p₅) (
                    Returned-Added
                      (mint_graph-Emits x Reads-Any prog_dalek x.asset_usdc mint.market mint.outcome
                        mint.amount mint.referrer eoa mint.permit mint.ms_ts)
                      made)))));
        after_signing = h₇;
        args = args;
        signed =
            create_solve_v2-IsSolveV2 x prog_dalek (f.args ∷ []) eoa eoa h₆ h₇ args
              (wrap-Returned _ _ p₇);
        key = key.0;
        sender = key.1;
        hash = sent.0;
        gas = sent.1;
        after_sending = h₈;
        delivered =
            send_arguments-IsDelivered x r.safety_router_addr true r.chain_id key.0 key.1
              (get_client_addr x r.accounts_factory_addr eoa) args (is_dryrun dryrun) sent.0 sent.1
              h₇ h₈ wet (on_error-Returned _ _ (alarm_then_raise-never x r ctx _ _) p₈);
        tracked = sym (
            track_tx-Returned x _ _ _ _ (when-Returned _ (not_dry _ wet) p₉)
            ∙ (pure-Returned rest₉).1);
        hash_returned = sym (pure-Returned rest₉).0;
      }
