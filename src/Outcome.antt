-- ===== src/Outcome.antt =====
-- Go's ways to leave a function: a value, an error with its text, a panic, `log.Fatalf`.
use accounts_superposition_s.Prelude.{
  Bytes, String, codes, ◌++◌, ◌≡◌, refl, Option, none, some, Bool, true, false,
}

-- An error as it was built by `fmt.Errorf`: the texts that are joined.
pub data Error : Type 0 where
  note : String → Error
  bytes : Bytes → Error
  join : Error → Error → Error

infixr 20 ◌◂◌
abbrev pub ◌◂◌ : Error → Error → Error
a ◂ b = join a b

-- `err.Error()`
unfoldable pub text : Error → Bytes
text (note s) = codes s
text (bytes b) = b
text (join a b) = text a ++ text b

pub data Outcome {ℓ} (A : Type ℓ) : Type ℓ where
  ok : A → Outcome A
  err : Error → Outcome A
  -- a run-time panic: an index out of range, a nil pointer
  panic : Outcome A
  -- `log.Fatalf`: the process ends
  fatal : Error → Outcome A

infixl 5 ◌>>=◌ ◌>>◌
abbrev pub ◌>>=◌ {ℓ κ} : {A : Type ℓ} {B : Type κ} → Outcome A → (A → Outcome B) → Outcome B
ok a >>= f = f a
err e >>= f = err e
panic >>= f = panic
fatal e >>= f = fatal e

abbrev pub ◌>>◌ {ℓ} : {B : Type ℓ} → Outcome (Unit {0}) → Outcome B → Outcome B
m >> k = m >>= λ _. k

-- `if bad { return err }`
abbrev pub refuse_if : Bool → Error → Outcome (Unit {0})
refuse_if true e = err e
refuse_if false e = ok tt

-- `if err != nil { return fmt.Errorf("prefix: %v", err) }`
abbrev pub wrap {ℓ} : {A : Type ℓ} → String → Outcome A → Outcome A
wrap s (ok a) = ok a
wrap s (err e) = err (note s ◂ e)
wrap s panic = panic
wrap s (fatal e) = fatal e

-- A value that may be missing, and the error when it is.
abbrev pub or_err {ℓ} : {A : Type ℓ} → Option A → Error → Outcome A
or_err none e = err e
or_err (some a) e = ok a

pub ok_not_panic {ℓ} : {A : Type ℓ} {m : Outcome A} {a : A} → m ≡ ok a → m ≡ panic → ⊥
ok_not_panic p q = cc

module _ {ℓ} {A : Type ℓ} where
  pub ok-injective : {a b : A} → ok a ≡ ok b → a ≡ b
  ok-injective e = cc (e)

  pub bind-ok {κ} :
      {B : Type κ} (o : Outcome A) {f : A → Outcome B} {b : B}
      → o >>= f ≡ ok b
      → (a : A) × (o ≡ ok a) × (f a ≡ ok b)
  bind-ok (ok a) p = (a, refl, p)
  bind-ok (err e) p = cc
  bind-ok panic p = cc
  bind-ok (fatal e) p = cc
