-- ===== src/Database/Unique.antt =====
-- The unique index on nonces: what System/Replay asks of the database.
use accounts_superposition_s.Prelude.{
  ◌≡◌, refl, inl, inr, Bytes, List, [], ◌∷◌, ◌++◌, true, bytes_eq_iff, ℤ, pos, negsuc, ==_iff,
  arith,
}
use accounts_superposition_s.World.{Event, insert_nonce_secret, answer, History, Externals}
use accounts_superposition_s.Database.{
  trim_right, Nonce, int_eq, has_nonce, Database, tables_of, exec_on, connected,
}
use accounts_superposition_s.Database.Statements.{new_nonces, tables_of-cases}
use accounts_superposition_s.System.Replay.{Used, UniqueNonces}

int_eq_refl : (z : ℤ) → int_eq z z ≡ true
unfolding int_eq
int_eq_refl (pos n) = (==_iff n n).1 refl
int_eq_refl (negsuc n) = (==_iff n n).1 refl

has_nonce-here : (t : Bytes) (n : ℤ) (rows : List Nonce) → has_nonce ((t, n) ∷ rows) t n ≡ true
unfolding has_nonce
has_nonce-here t n rows = rw ((bytes_eq_iff t t).1 refl, int_eq_refl n) refl

has_nonce-there :
    (new rows : List Nonce) (t : Bytes) (n : ℤ)
    → has_nonce rows t n ≡ true
    → has_nonce (new ++ rows) t n ≡ true
unfolding has_nonce
has_nonce-there [] rows t n h = h
has_nonce-there ((t', n') ∷ new) rows t n h = ground (arith, has_nonce-there new rows t n h)

module _ (x : Externals) (d : Database) where
  tables_of-has_nonce :
      (e : Event) (h : History) (t : Bytes) (n : ℤ)
      → has_nonce (tables_of d h).nonces t n ≡ true
      → has_nonce (tables_of d (e ∷ h)).nonces t n ≡ true
  tables_of-has_nonce e h t n was = elim (tables_of-cases d e h) [
    | inl (ran, _) ↦ rw ran.nonces (has_nonce-there (new_nonces e) (tables_of d h).nonces t n was)
    | inr (same, _) ↦ rw same was
  ]

  consumed :
      (text secret : Bytes) (nonce : ℤ) (h : History)
      → exec_on d (insert_nonce_secret text secret nonce) h ≡ answer tt
      → has_nonce
          (tables_of d (insert_nonce_secret text secret nonce ∷ h)).nonces
          (trim_right text)
          nonce
        ≡ true
  consumed text secret nonce h p =
      elim (tables_of-cases d (insert_nonce_secret text secret nonce) h) [
        | inl (ran, _) ↦
            rw ran.nonces (has_nonce-here (trim_right text) nonce (tables_of d h).nonces)
        | inr (_, failing) ↦ absurd (failing p)
      ]

  -- A nonce that was used is in the table.
  pub Used-has_nonce :
      (text : Bytes) (nonce : ℤ) (h : History)
      → Used (connected d x) text nonce h
      → has_nonce (tables_of d h).nonces (trim_right text) nonce ≡ true
  Used-has_nonce text nonce [] u = absurd u
  Used-has_nonce text nonce (insert_nonce_secret t s n ∷ h) (inl (same, same', p)) =
      rw (← same, ← same') (consumed t s n h p)
  Used-has_nonce text nonce (_ ∷ h) (inl c) = absurd c
  Used-has_nonce text nonce (e ∷ h) (inr u) =
      tables_of-has_nonce e h (trim_right text) nonce (Used-has_nonce text nonce h u)

  -- The schema keeps every nonce to one use.
  pub connected-UniqueNonces : UniqueNonces (connected d x)
  connected-UniqueNonces text secret nonce h p u =
      elim (tables_of-cases d (insert_nonce_secret text secret nonce) h) [
        | inl (ran, _) ↦ absurd (cc (ran.fresh, Used-has_nonce text nonce h u))
        | inr (_, failing) ↦ failing p
      ]
