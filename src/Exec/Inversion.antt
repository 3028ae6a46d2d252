-- ===== src/Exec/Inversion.antt =====
-- What a handler that returned a value has done.
use accounts_superposition_s.Prelude.{◌≡◌, refl, String, List, Bool, true, false, arith}
use accounts_superposition_s.Outcome.{Error, Outcome, ok, err, panic, fatal}
use accounts_superposition_s.Exec.{
  Exec, pure, raise, exit, lift, ◌>>=◌, continue, refuse_if, handle, on_error, wrap,
}

-- `m` returned `a` and left the history `h'`.
pub record Returned {E A : Type 0} (m : Exec E A) (h : List E) (a : A) (h' : List E) : Type 0 where
  pub value : (m h).0 ≡ ok a
  pub history : (m h).1 ≡ h'

module _ {E A : Type 0} where
  pub pure-Returned : {a b : A} {h h' : List E} → Returned (pure a) h b h' → (a ≡ b) × (h ≡ h')
  unfolding pure
  pure-Returned p = (ground (arith, p.value), p.history)

  pub lift-Returned :
      {r : Outcome A} {a : A} {h h' : List E} → Returned (lift r) h a h' → (r ≡ ok a) × (h ≡ h')
  unfolding lift
  lift-Returned p = (p.value, p.history)

  handle-Returned :
      (recover : Error → Exec E A)
      → ((e : Error) (a : A) (h h' : List E) → ¬ Returned (recover e) h a h')
      → (r : Outcome A) (a : A) (h h' : List E) → (handle recover r h).0 ≡ ok a
      → (handle recover r h).1 ≡ h'
      → (r ≡ ok a) × (h ≡ h')
  handle-Returned recover never (ok b) a h h' p q = (p, q)
  handle-Returned recover never (err e) a h h' p q =
      absurd (never e a h h' (record { value = p; history = q }))
  handle-Returned recover never panic a h h' p q = absurd (cc)
  handle-Returned recover never (fatal e) a h h' p q = absurd (cc)

  -- An error path that never returns a value.
  pub on_error-Returned :
      (m : Exec E A) (recover : Error → Exec E A)
      → ((e : Error) (a : A) (h h' : List E) → ¬ Returned (recover e) h a h')
      → {a : A} {h h' : List E} → Returned (on_error m recover) h a h'
      → Returned m h a h'
  unfolding on_error
  on_error-Returned m recover never {a} {h} {h'} p =
      let (value, history) = handle-Returned recover never (m h).0 a (m h).1 h' p.value p.history in
      record { value = value; history = history }

  pub raise-never : (e : Error) (a : A) (h h' : List E) → ¬ Returned (raise e) h a h'
  unfolding raise
  raise-never e a h h' p = cc (p.value)

  pub exit-never : (e : Error) (a : A) (h h' : List E) → ¬ Returned (exit e) h a h'
  unfolding exit
  exit-never e a h h' p = cc (p.value)

  pub wrap-Returned :
      (s : String) (m : Exec E A) {a : A} {h h' : List E}
      → Returned (wrap s m) h a h'
      → Returned m h a h'
  unfolding wrap
  wrap-Returned s m = on_error-Returned m _ (λ e. raise-never _)

module _ {E A B : Type 0} where
  continue-Returned :
      (f : A → Exec E B) (r : Outcome A) (b : B) (h h' : List E)
      → (continue r f h).0 ≡ ok b
      → (continue r f h).1 ≡ h'
      → (a : A) × (r ≡ ok a) × Returned (f a) h b h'
  continue-Returned f (ok a) b h h' p q = (a, refl, record { value = p; history = q })
  continue-Returned f (err e) b h h' p q = absurd (cc)
  continue-Returned f panic b h h' p q = absurd (cc)
  continue-Returned f (fatal e) b h h' p q = absurd (cc)

  pub bind-Returned :
      {m : Exec E A} {f : A → Exec E B} {b : B} {h h' : List E}
      → Returned (m >>= f) h b h'
      → (a : A) × (h₁ : List E) × Returned m h a h₁ × Returned (f a) h₁ b h'
  unfolding ◌>>=◌
  bind-Returned {m} {f} {b} {h} {h'} p =
      let (a, value, rest) = continue-Returned f (m h).0 b (m h).1 h' p.value p.history in
      (a, (m h).1, record { value = value; history = refl }, rest)

module _ {E : Type 0} where
  pub refuse_if-Returned :
      (bad : Bool) (e : Error) {u : Unit {0}} {h h' : List E}
      → Returned (refuse_if bad e) h u h'
      → (bad ≡ false) × (h ≡ h')
  unfolding refuse_if raise pure
  refuse_if-Returned true e p = absurd (cc (p.value))
  refuse_if-Returned false e p = (refl, p.history)
