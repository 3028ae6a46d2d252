-- ===== src/Database/Counted.antt =====
-- Which pairs the database counts: what System/Owners asks of it, and what stays counted.
use accounts_superposition_s.Prelude.{
  ◌≡◌, ◌≢◌, refl, ◌⊎◌, inl, inr, Bytes, List, [], ◌∷◌, ◌++◌, Bool, true, false, ◌&&◌, bytes_eq,
  bytes_eq_iff, Bool-cases, arith, ap, All, Option, none, some,
}
use accounts_superposition_s.World.{
  Event, insert_secret, insert_nonce_secret, count_secrets, answer, History, Externals,
}
use accounts_superposition_s.Database.{
  trim_right, Secret, Tables, same_secret, count_pairs, count_rows, Database, tables_of, exec_on,
  count_on, connected,
}
use accounts_superposition_s.Database.Statements.{new_secrets, tables_of-cases}
use accounts_superposition_s.System.Owners.{Stores, Stored, CountsStored}

both : (a b : Bool) → a && b ≡ true → (a ≡ true) × (b ≡ true)
both true b h = (refl, h)
both false b h = cc

same_secret-some : (o : Option Bytes) (s : Bytes) → same_secret o s ≡ true → o ≡ some (trim_right s)
unfolding same_secret
same_secret-some none s e = absurd (cc (e))
same_secret-some (some s') s e = ap some ((bytes_eq_iff _ _).0 e)

same_secret_self : (s : Bytes) → same_secret (some (trim_right s)) s ≡ true
unfolding same_secret
same_secret_self s = (bytes_eq_iff (trim_right s) (trim_right s)).1 refl

some-injective : {a b : Bytes} → some a ≡ some b → a ≡ b
some-injective e = cc (e)

-- A row that counts is one of the new ones or of the others.
count_pairs-cases :
    (t s : Bytes) (rows : List Secret) (t' : Bytes) (o : Option Bytes)
    → count_pairs t s ((t', o) ∷ rows) ≢ 0
    → ((t' ≡ trim_right t) × (o ≡ some (trim_right s))) ⊎ (count_pairs t s rows ≢ 0)
unfolding count_pairs
count_pairs-cases t s rows t' o n =
    elim (Bool-cases (bytes_eq t' (trim_right t) && same_secret o s)) [
      | inl e ↦ let (a, b) = both _ _ e in inl ((bytes_eq_iff _ _).0 a, same_secret-some o s b)
      | inr e ↦ inr (rw e at n)
    ]

inserted-Stores :
    (t s : Bytes) (rows : List Secret) (t' s' : Bytes)
    → count_pairs t s ((trim_right t', some (trim_right s')) ∷ rows) ≢ 0
    → ((trim_right t' ≡ trim_right t) × (trim_right s' ≡ trim_right s)) ⊎ (count_pairs t s rows ≢ 0)
inserted-Stores t s rows t' s' n =
    elim (count_pairs-cases t s rows (trim_right t') (some (trim_right s')) n) [
      | inl (a, b) ↦ inl (a, some-injective b)
      | inr others ↦ inr others
    ]

new-Stores :
    (e : Event) (t s : Bytes) (rows : List Secret)
    → count_pairs t s (new_secrets e ++ rows) ≢ 0
    → Stores t s e ⊎ (count_pairs t s rows ≢ 0)
new-Stores (insert_secret t' s') t s rows n = inserted-Stores t s rows t' s' n
new-Stores (insert_nonce_secret t' s' nonce) t s rows n = inserted-Stores t s rows t' s' n
new-Stores _ t s rows n = inr n

count_pairs-here :
    (t s : Bytes) (rows : List Secret)
    → count_pairs t s ((trim_right t, some (trim_right s)) ∷ rows) ≢ 0
unfolding count_pairs
count_pairs-here t s rows e =
    absurd (cc (rw ((bytes_eq_iff (trim_right t) (trim_right t)).1 refl, same_secret_self s) at e))

count_pairs-there :
    (t s : Bytes) (new rows : List Secret)
    → count_pairs t s rows ≢ 0
    → count_pairs t s (new ++ rows) ≢ 0
unfolding count_pairs
count_pairs-there t s [] rows n = n
count_pairs-there t s ((t', s') ∷ new) rows n = ground (arith, count_pairs-there t s new rows n)

-- There is no secret in the rows: each is NULL.
abbrev pub NoSecrets : Tables → Type 0
NoSecrets db = All (λ row. row.1 ≡ none) db.secrets

count_pairs-none :
    (t s : Bytes) (rows : List Secret) → All (λ row. row.1 ≡ none) rows → count_pairs t s rows ≡ 0
unfolding count_pairs same_secret
count_pairs-none t s [] a = refl
count_pairs-none t s ((t', none) ∷ rows) (e, a) = ground (arith, count_pairs-none t s rows a)
count_pairs-none t s ((t', some s') ∷ rows) (e, a) = absurd (cc (e))

module _ (x : Externals) (d : Database) where
  start_none : (t s : Bytes) → NoSecrets d.start → ¬ (count_pairs t s (tables_of d []).secrets ≢ 0)
  unfolding tables_of
  start_none t s empty n = n (count_pairs-none t s d.start.secrets empty)

  tables_of-Stored :
      (t s : Bytes) (h : History)
      → NoSecrets d.start
      → count_pairs t s (tables_of d h).secrets ≢ 0
      → Stored t s h
  tables_of-Stored t s [] empty n = absurd (start_none t s empty n)
  tables_of-Stored t s (e ∷ h) empty n = elim (tables_of-cases d e h) [
    | inl (ran, _) ↦ elim (new-Stores e t s (tables_of d h).secrets (rw ran.secrets at n)) [
      | inl here ↦ inl here
      | inr there ↦ inr (tables_of-Stored t s h empty there)
    ]
    | inr (same, _) ↦ inr (tables_of-Stored t s h empty (rw same at n))
  ]

  -- From no secrets but NULL, the schema counts inserted pairs only.
  pub connected-CountsStored : NoSecrets d.start → CountsStored (connected d x)
  unfolding count_on count_rows
  connected-CountsStored empty t s count h p n = elim (Bool-cases (d.up (count_secrets t s) h)) [
    | inl up ↦ tables_of-Stored t s h empty (λ e. n (ground (arith, rw up at p, e)))
    | inr down ↦ absurd (cc (rw down at p))
  ]

  -- What was inserted stays counted.
  pub count_pairs-later :
      (t s : Bytes) (e : Event) (h : History)
      → count_pairs t s (tables_of d h).secrets ≢ 0
      → count_pairs t s (tables_of d (e ∷ h)).secrets ≢ 0
  count_pairs-later t s e h n = elim (tables_of-cases d e h) [
    | inl (ran, _) ↦
        rw ran.secrets (count_pairs-there t s (new_secrets e) (tables_of d h).secrets n)
    | inr (same, _) ↦ rw same n
  ]

  pub inserted-counts :
      (t s : Bytes) (h : History)
      → exec_on d (insert_secret t s) h ≡ answer tt
      → count_pairs t s (tables_of d (insert_secret t s ∷ h)).secrets ≢ 0
  inserted-counts t s h p = elim (tables_of-cases d (insert_secret t s) h) [
    | inl (ran, _) ↦ rw ran.secrets (count_pairs-here t s (tables_of d h).secrets)
    | inr (_, failing) ↦ absurd (failing p)
  ]
