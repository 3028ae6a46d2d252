-- ===== src/Graph/Inputs/Keys.antt =====
-- When a key of a map is read, and as what.
use accounts_superposition_s.Prelude.{
  ◌≡◌, refl, ap, sym, ◌∙◌, ◌⊎◌, inl, inr, ◌↔◌, Bytes, codes, List, [], ◌∷◌, Option, none, some, ℤ,
  pos,
}
use accounts_superposition_s.Outcome.{Outcome, ok, ok-injective}
use accounts_superposition_s.World.{Reply, answer, failed}
use accounts_superposition_s.Model
use accounts_superposition_s.Graph.Inputs.{
  Raw, null, object, scalar, RawMap, value_at, Coercion, at_key, replied, unmarshal_n_string,
  unmarshal_n_int,
}

-- The value of a key: absent, and then the zero value, or present, and then read by `R`.
abbrev pub Keyed : {A : Type 0} → RawMap → Bytes → A → (Raw → A → Type 0) → A → Type 0
Keyed {A} m key zero R a =
    ((value_at m key ≡ none) × (zero ≡ a)) ⊎ ((v : Raw) × (value_at m key ≡ some v) × R v a)

module _ (c : Coercion) where
  abbrev pub Text : Raw → Bytes → Type 0
  Text v s = c.unmarshal_string v ≡ answer s

  abbrev pub Number : Raw → ℤ → Type 0
  Number v z = c.unmarshal_int32 v ≡ answer z

  pub record IsPermitMap (m : RawMap) (p : Model.Permit) : Type 0 where
    pub deadline : Keyed m (codes "deadline") (pos 0) Number p.deadline
    pub permit_v : Keyed m (codes "permitV") (pos 0) Number p.permit_v
    pub permit_r : Keyed m (codes "permitR") [] Text p.permit_r
    pub permit_s : Keyed m (codes "permitS") [] Text p.permit_s

  -- nil is no permit
  abbrev pub OptionalPermit : Raw → Option Model.Permit → Type 0
  OptionalPermit null o = none ≡ o
  OptionalPermit (scalar s) o = ⊥
  OptionalPermit (object m) o = (p : Model.Permit) × (some p ≡ o) × IsPermitMap m p

  pub record IsMintMap (m : RawMap) (mint : Model.Mint) : Type 0 where
    pub market : Keyed m (codes "market") [] Text mint.market
    pub outcome : Keyed m (codes "outcome") [] Text mint.outcome
    pub amount : Keyed m (codes "amount") [] Text mint.amount
    pub permit : Keyed m (codes "permit") none OptionalPermit mint.permit
    pub referrer : Keyed m (codes "referrer") [] Text mint.referrer
    pub ms_ts : Keyed m (codes "ms_ts") [] Text mint.ms_ts

  -- nil is no text
  abbrev pub OptionalText : Raw → Option Bytes → Type 0
  OptionalText null o = none ≡ o
  OptionalText v o = (s : Bytes) × (some s ≡ o) × Text v s

  pub record IsAccountMap (m : RawMap) (a : Model.CreateAccount) : Type 0 where
    pub eoa_addr : Keyed m (codes "eoa_addr") [] Text a.eoa_addr
    pub sig_v : Keyed m (codes "sigV") (pos 0) Number a.sig_v
    pub sig_r : Keyed m (codes "sigR") [] Text a.sig_r
    pub sig_s : Keyed m (codes "sigS") [] Text a.sig_s
    pub authority : Keyed m (codes "authority") none OptionalText a.authority

module _ {A : Type 0} (m : RawMap) (key : Bytes) (zero : A)
    (unmarshal : List Bytes → Raw → Outcome A) (path : List Bytes) where
  at_key-none : value_at m key ≡ none → at_key m key zero unmarshal path ≡ ok zero
  unfolding at_key
  at_key-none e = rw e refl

  at_key-some :
      (v : Raw)
      → value_at m key ≡ some v
      → at_key m key zero unmarshal path ≡ unmarshal (key ∷ path) v
  unfolding at_key
  at_key-some v e = rw e refl

  module _ (R : Raw → A → Type 0) (a : A)
      (reads : (v : Raw) → (unmarshal (key ∷ path) v ≡ ok a) ↔ R v a) where
    Keyed_of :
        (o : Option Raw)
        → value_at m key ≡ o
        → at_key m key zero unmarshal path ≡ ok a
        → Keyed m key zero R a
    Keyed_of none e p = inl (e, ok-injective (sym (at_key-none e) ∙ p))
    Keyed_of (some v) e p = inr (v, e, (reads v).0 (sym (at_key-some v e) ∙ p))

    -- A key is read as its value is.
    pub at_key_iff : (at_key m key zero unmarshal path ≡ ok a) ↔ Keyed m key zero R a
    at_key_iff = (
      Keyed_of (value_at m key) refl,
      λ k. elim k [
        | inl (absent, e) ↦ at_key-none absent ∙ ap ok e
        | inr (v, found, r) ↦ at_key-some v found ∙ (reads v).1 r
      ],
    )

module _ (c : Coercion) where
  pub replied_iff :
      {A : Type 0} (path : List Bytes) (r : Reply A) (a : A)
      → (replied c path r ≡ ok a) ↔ (r ≡ answer a)
  replied_iff path (answer b) a = (λ p. ap answer (ok-injective p), λ p. cc (p))
  replied_iff path (failed e) a = (λ p. cc (p), λ p. cc (p))

  module _ (m : RawMap) (key path : _) where
    pub Text-iff :
        (a : Bytes)
        → (at_key m key [] (unmarshal_n_string c) path ≡ ok a) ↔ Keyed m key [] (Text c) a
    Text-iff a =
        at_key_iff m key [] (unmarshal_n_string c) path (Text c) a
          (λ v. replied_iff (key ∷ path) (c.unmarshal_string v) a)

    pub Number-iff :
        (a : ℤ)
        → (at_key m key (pos 0) (unmarshal_n_int c) path ≡ ok a) ↔ Keyed m key (pos 0) (Number c) a
    Number-iff a =
        at_key_iff m key (pos 0) (unmarshal_n_int c) path (Number c) a
          (λ v. replied_iff (key ∷ path) (c.unmarshal_int32 v) a)
