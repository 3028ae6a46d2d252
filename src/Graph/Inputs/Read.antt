-- ===== src/Graph/Inputs/Read.antt =====
-- Which inputs are accepted, and as what.
use accounts_superposition_s.Prelude.{◌≡◌, refl, ap, ◌↔◌, Bytes, codes, List, Option, none, some}
use accounts_superposition_s.Outcome.{Outcome, ok, err, panic, fatal, ok-injective, bind-ok, ◌>>=◌}
use accounts_superposition_s.Model
use accounts_superposition_s.Graph.Inputs.{
  Raw, null, object, scalar, RawMap, Coercion, at_key, on_path, unmarshal_n_string,
  unmarshal_input_permit, unmarshal_o_permit, unmarshal_input_mint, unmarshal_o_string,
  unmarshal_input_create_account,
}
use accounts_superposition_s.Graph.Inputs.Keys.{
  Keyed, Text, IsPermitMap, OptionalPermit, IsMintMap, OptionalText, IsAccountMap, at_key_iff,
  replied_iff, Text-iff, Number-iff,
}

module _ (c : Coercion) where
  permit_read :
      (path : List Bytes) (m : RawMap) (p : Model.Permit)
      → unmarshal_input_permit c path (object m) ≡ ok p
      → IsPermitMap c m p
  unfolding unmarshal_input_permit
  permit_read path m p q =
      let (deadline, e₁, rest₁) = bind-ok _ q in
      let (v, e₂, rest₂) = bind-ok _ rest₁ in
      let (r, e₃, rest₃) = bind-ok _ rest₂ in
      let (s, e₄, rest₄) = bind-ok _ rest₃ in
      let made : record { deadline = deadline; permit_v = v; permit_r = r; permit_s = s } ≡ p =
        ok-injective rest₄ in
      rw (← made) (record {
        deadline = (Number-iff c m _ path deadline).0 e₁;
        permit_v = (Number-iff c m _ path v).0 e₂;
        permit_r = (Text-iff c m _ path r).0 e₃;
        permit_s = (Text-iff c m _ path s).0 e₄;
      })

  permit_accepted :
      (path : List Bytes) (m : RawMap) (p : Model.Permit)
      → IsPermitMap c m p
      → unmarshal_input_permit c path (object m) ≡ ok p
  unfolding unmarshal_input_permit
  permit_accepted path m p is =
      rw
        (
          (Number-iff c m _ path p.deadline).1 is.deadline,
          (Number-iff c m _ path p.permit_v).1 is.permit_v,
          (Text-iff c m _ path p.permit_r).1 is.permit_r,
          (Text-iff c m _ path p.permit_s).1 is.permit_s,
        )
        refl

  pub on_path-ok :
      {A : Type 0} (path : List Bytes) (o : Outcome A) (a : A) → on_path c path o ≡ ok a → o ≡ ok a
  on_path-ok path (ok b) a p = p
  on_path-ok path (err e) a p = cc
  on_path-ok path panic a p = cc
  on_path-ok path (fatal e) a p = cc

  OptionalPermit-iff :
      (path : List Bytes) (v : Raw) (o : Option Model.Permit)
      → (unmarshal_o_permit c path v ≡ ok o) ↔ OptionalPermit c v o
  unfolding unmarshal_o_permit
  OptionalPermit-iff path null o = (λ p. ok-injective p, λ e. ap ok e)
  OptionalPermit-iff path (scalar s) o = (λ p. cc (p), λ e. absurd e)
  OptionalPermit-iff path (object m) o = (
    λ q.
        let (p, e, rest) = bind-ok (on_path c path (unmarshal_input_permit c path (object m))) q in
        (p, ok-injective rest, permit_read path m p (on_path-ok path _ p e)),
    λ is. let (p, e, read) = is in rw (permit_accepted path m p read) (ap ok e),
  )

  permit_iff :
      (m : RawMap) (path : List Bytes) (o : Option Model.Permit)
      → (at_key m (codes "permit") none (unmarshal_o_permit c) path ≡ ok o)
        ↔ Keyed m (codes "permit") none (OptionalPermit c) o
  permit_iff m path o =
      at_key_iff m _ none (unmarshal_o_permit c) path (OptionalPermit c) o
        (λ v. OptionalPermit-iff _ v o)

  mint_read :
      (path : List Bytes) (m : RawMap) (mint : Model.Mint)
      → unmarshal_input_mint c path (object m) ≡ ok mint
      → IsMintMap c m mint
  unfolding unmarshal_input_mint
  mint_read path m mint q =
      let (market, e₁, rest₁) = bind-ok _ q in
      let (out, e₂, rest₂) = bind-ok _ rest₁ in
      let (amount, e₃, rest₃) = bind-ok _ rest₂ in
      let (permit, e₄, rest₄) = bind-ok _ rest₃ in
      let (referrer, e₅, rest₅) = bind-ok _ rest₄ in
      let (ms_ts, e₆, rest₆) = bind-ok _ rest₅ in
      let made : record {
        market = market;
        outcome = out;
        amount = amount;
        permit = permit;
        referrer = referrer;
        ms_ts = ms_ts;
      }
          ≡ mint =
        ok-injective rest₆ in
      rw (← made) (record {
        market = (Text-iff c m _ path market).0 e₁;
        outcome = (Text-iff c m _ path out).0 e₂;
        amount = (Text-iff c m _ path amount).0 e₃;
        permit = (permit_iff m path permit).0 e₄;
        referrer = (Text-iff c m _ path referrer).0 e₅;
        ms_ts = (Text-iff c m _ path ms_ts).0 e₆;
      })

  text_some :
      (path : List Bytes) (v : Raw) (o : Option Bytes)
      → ((unmarshal_n_string c path v >>= λ s. ok (some s)) ≡ ok o)
        ↔ ((s : Bytes) × (some s ≡ o) × Text c v s)
  text_some path v o = (
    λ q.
        let (s, e, rest) = bind-ok (unmarshal_n_string c path v) q in
        (s, ok-injective rest, (replied_iff c path (c.unmarshal_string v) s).0 e),
    λ is. let (s, e, read) = is in rw read (ap ok e),
  )

  OptionalText-iff :
      (path : List Bytes) (v : Raw) (o : Option Bytes)
      → (unmarshal_o_string c path v ≡ ok o) ↔ OptionalText c v o
  unfolding unmarshal_o_string
  OptionalText-iff path null o = (λ p. ok-injective p, λ e. ap ok e)
  OptionalText-iff path (scalar s) o = text_some path (scalar s) o
  OptionalText-iff path (object m) o = text_some path (object m) o

  authority_iff :
      (m : RawMap) (path : List Bytes) (o : Option Bytes)
      → (at_key m (codes "authority") none (unmarshal_o_string c) path ≡ ok o)
        ↔ Keyed m (codes "authority") none (OptionalText c) o
  authority_iff m path o =
      at_key_iff m _ none (unmarshal_o_string c) path (OptionalText c) o
        (λ v. OptionalText-iff _ v o)

  account_read :
      (path : List Bytes) (m : RawMap) (a : Model.CreateAccount)
      → unmarshal_input_create_account c path (object m) ≡ ok a
      → IsAccountMap c m a
  unfolding unmarshal_input_create_account
  account_read path m a q =
      let (eoa, e₁, rest₁) = bind-ok _ q in
      let (v, e₂, rest₂) = bind-ok _ rest₁ in
      let (r, e₃, rest₃) = bind-ok _ rest₂ in
      let (s, e₄, rest₄) = bind-ok _ rest₃ in
      let (authority, e₅, rest₅) = bind-ok _ rest₄ in
      let made : record { eoa_addr = eoa; sig_v = v; sig_r = r; sig_s = s; authority = authority }
          ≡ a =
        ok-injective rest₅ in
      rw (← made) (record {
        eoa_addr = (Text-iff c m _ path eoa).0 e₁;
        sig_v = (Number-iff c m _ path v).0 e₂;
        sig_r = (Text-iff c m _ path r).0 e₃;
        sig_s = (Text-iff c m _ path s).0 e₄;
        authority = (authority_iff m path authority).0 e₅;
      })

  pub account_iff :
      (path : List Bytes) (m : RawMap) (a : Model.CreateAccount)
      → (unmarshal_input_create_account c path (object m) ≡ ok a) ↔ IsAccountMap c m a
  unfolding unmarshal_input_create_account
  account_iff path m a = (
    account_read path m a,
    λ is.
        rw
          (
            (Text-iff c m _ path a.eoa_addr).1 is.eoa_addr,
            (Number-iff c m _ path a.sig_v).1 is.sig_v,
            (Text-iff c m _ path a.sig_r).1 is.sig_r,
            (Text-iff c m _ path a.sig_s).1 is.sig_s,
            (authority_iff m path a.authority).1 is.authority,
          )
          refl,
  )

  pub mint_iff :
      (path : List Bytes) (m : RawMap) (mint : Model.Mint)
      → (unmarshal_input_mint c path (object m) ≡ ok mint) ↔ IsMintMap c m mint
  unfolding unmarshal_input_mint
  mint_iff path m mint = (
    mint_read path m mint,
    λ is.
        rw
          (
            (Text-iff c m _ path mint.market).1 is.market,
            (Text-iff c m _ path mint.outcome).1 is.outcome,
            (Text-iff c m _ path mint.amount).1 is.amount,
            (permit_iff m path mint.permit).1 is.permit,
            (Text-iff c m _ path mint.referrer).1 is.referrer,
            (Text-iff c m _ path mint.ms_ts).1 is.ms_ts,
          )
          refl,
  )

  -- A map is read as a mint exactly when each key of the mint that is there is read as the mint's
  -- field, where nil is no permit and a map is a permit that is read in the same way, and the field
  -- of each key that is not there is empty; and as the account to create likewise, where nil is no
  -- authority. Other keys do not matter.
  pub inputs_iff :
      (path : List Bytes) (m : RawMap) (mint : Model.Mint) (a : Model.CreateAccount)
      → ((unmarshal_input_mint c path (object m) ≡ ok mint) ↔ IsMintMap c m mint)
        × ((unmarshal_input_create_account c path (object m) ≡ ok a) ↔ IsAccountMap c m a)
  inputs_iff path m mint a = (mint_iff path m mint, account_iff path m a)
