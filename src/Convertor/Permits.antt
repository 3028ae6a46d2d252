-- ===== src/Convertor/Permits.antt =====
-- The permit of a request.
use accounts_superposition_s.Prelude.{
  ℕ, ◌<◌, ◌^◌, ◌≡◌, refl, sym, ap, Bytes, List, [], ◌∷◌, Option, none, some, ℤ, pos, negsuc, ltb,
  Bool-cases, inl, inr, arith,
}
use accounts_superposition_s.Outcome.{ok}
use accounts_superposition_s.Exec.Inversion.{
  Returned, pure-Returned, lift-Returned, bind-Returned, wrap-Returned,
}
use accounts_superposition_s.Types.{Permit}
use accounts_superposition_s.Model
use accounts_superposition_s.Model.{IsInt32}
use accounts_superposition_s.World.{History}
use accounts_superposition_s.Convertor.Decode.{str_to_bytes, checked_v, checked_deadline}
use accounts_superposition_s.Convertor.Request.{
  new_permit, new_permit_graph, permit_graph, permit_list,
}

checked_v-ok : (z : ℤ) {v : ℕ} → checked_v z ≡ ok v → (z ≡ pos v) × (v < 256)
unfolding checked_v
checked_v-ok (negsuc n) p = absurd (cc)
checked_v-ok (pos n) {v} p = elim (Bool-cases (ltb 255 n)) [
  | inl e ↦ absurd (ground (arith, p))
  | inr e ↦ (ap pos (ground (arith, p)), ground (arith, p))
]

checked_deadline-ok :
    (z : ℤ) {d : ℕ} → IsInt32 z → checked_deadline z ≡ ok d → (z ≡ pos d) × (d < 2 ^ 31)
unfolding checked_deadline
checked_deadline-ok (negsuc n) i p = absurd (cc)
checked_deadline-ok (pos n) {d} i p = (ap pos (ground (arith, p)), ground (arith, p))

-- The permit is the request's, field by field.
pub record IsPermitOf (asset : ℕ) (permit : Model.Permit) (p : Permit) : Type 0 where
  pub asset_kept : p.asset ≡ asset
  pub deadline_kept : permit.deadline ≡ pos p.deadline
  pub deadline_small : p.deadline < 2 ^ 31
  pub v_kept : permit.permit_v ≡ pos p.v
  pub v_byte : p.v < 256
  pub r_decoded : str_to_bytes 32 permit.permit_r ≡ ok p.r
  pub s_decoded : str_to_bytes 32 permit.permit_s ≡ ok p.s

new_permit_graph-fields :
    (asset deadline : ℕ) (v : ℤ) (r s : Bytes) {p : Permit} {h h' : History}
    → Returned (new_permit_graph asset deadline v r s) h p h'
    → (p.asset ≡ asset)
      × (p.deadline ≡ deadline)
      × (checked_v v ≡ ok p.v)
      × (str_to_bytes 32 r ≡ ok p.r)
      × (str_to_bytes 32 s ≡ ok p.s)
unfolding new_permit_graph new_permit
new_permit_graph-fields asset deadline v r s q =
    let (b, h₁, p₁, rest₁) = bind-Returned q in
    let (rb, h₂, p₂, rest₂) = bind-Returned rest₁ in
    let (sb, h₃, p₃, rest₃) = bind-Returned rest₂ in
    rw (← (pure-Returned rest₃).0) (
      refl,
      refl,
      (lift-Returned p₁).0,
      (lift-Returned (wrap-Returned _ _ p₂)).0,
      (lift-Returned (wrap-Returned _ _ p₃)).0,
    )

-- The permit as its texts and numbers are read.
pub record IsPermitRead (asset : ℕ) (permit : Model.Permit) (p : Permit) : Type 0 where
  pub asset_kept : p.asset ≡ asset
  pub deadline_read : checked_deadline permit.deadline ≡ ok p.deadline
  pub v_read : checked_v permit.permit_v ≡ ok p.v
  pub r_decoded : str_to_bytes 32 permit.permit_r ≡ ok p.r
  pub s_decoded : str_to_bytes 32 permit.permit_s ≡ ok p.s

-- There is a permit exactly when the request has one, and it is that one.
abbrev pub PermitRead : ℕ → Option Model.Permit → Option Permit → Type 0
PermitRead asset none o = o ≡ none
PermitRead asset (some permit) o = (p : Permit) × (o ≡ some p) × IsPermitRead asset permit p

-- The list has one permit, that of the request, or none if the request has none.
abbrev pub PermitsRead : ℕ → Option Model.Permit → List Permit → Type 0
PermitsRead asset none ps = ps ≡ []
PermitsRead asset (some permit) ps = (p : Permit) × (ps ≡ p ∷ []) × IsPermitRead asset permit p

pub permit_list-PermitsRead :
    (asset : ℕ) (permit : Option Model.Permit) (o : Option Permit)
    → PermitRead asset permit o
    → PermitsRead asset permit (permit_list o)
permit_list-PermitsRead asset none o e = ap permit_list e
permit_list-PermitsRead asset (some permit) o (p, e, read) = (p, ap permit_list e, read)

pub permit_graph-PermitRead :
    (asset : ℕ) (permit : Option Model.Permit) {o : Option Permit} {h h' : History}
    → Returned (permit_graph asset permit) h o h'
    → PermitRead asset permit o
unfolding permit_graph
permit_graph-PermitRead asset none q = sym (pure-Returned q).0
permit_graph-PermitRead asset (some permit) q =
    let (deadline, h₁, p₁, rest₁) = bind-Returned q in
    let (p, h₂, p₂, rest₂) = bind-Returned rest₁ in
    let (a, d, v, r, s) = new_permit_graph-fields asset deadline _ _ _ (wrap-Returned _ _ p₂) in
    (
      p,
      sym (pure-Returned rest₂).0,
      record {
        asset_kept = a;
        deadline_read = rw d (lift-Returned p₁).0;
        v_read = v;
        r_decoded = r;
        s_decoded = s;
      },
    )

-- When a request's permit of int32 fields is accepted, its deadline and V are not negative and are
-- kept as they are, V is a byte, and R and S are the decoded texts.
pub permit_graph-IsPermitOf :
    (asset : ℕ) (permit : Model.Permit) (o : Option Permit) (h h' : History)
    → IsInt32 permit.deadline
    → Returned (permit_graph asset (some permit)) h o h'
    → (p : Permit) × (o ≡ some p) × IsPermitOf asset permit p
unfolding permit_graph
permit_graph-IsPermitOf asset permit o h h' small q =
    let (deadline, h₁, p₁, rest₁) = bind-Returned q in
    let (p, h₂, p₂, rest₂) = bind-Returned rest₁ in
    let (a, d, v, r, s) = new_permit_graph-fields asset deadline _ _ _ (wrap-Returned _ _ p₂) in
    let (deadline_kept, deadline_small) = checked_deadline-ok _ small (lift-Returned p₁).0 in
    let (v_kept, v_byte) = checked_v-ok _ v in
    (
      p,
      sym (pure-Returned rest₂).0,
      record {
        asset_kept = a;
        deadline_kept = rw d deadline_kept;
        deadline_small = rw d deadline_small;
        v_kept = v_kept;
        v_byte = v_byte;
        r_decoded = r;
        s_decoded = s;
      },
    )
