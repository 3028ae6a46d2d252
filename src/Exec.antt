-- ===== src/Exec.antt =====
-- Handlers that talk to the outside. The history lists what was asked of the outside so far, the
-- newest first; an answer may depend on the whole of it.
pub mod Emits
pub mod Once
pub mod Bounded
pub mod Inversion
pub mod Along
pub mod Grown
pub mod Progress
pub mod Onward
use accounts_superposition_s.Prelude.{String, List, ◌∷◌, Bool, true, false, if◌then◌else◌}
use accounts_superposition_s.Outcome.{Error, Outcome, ok, err, panic, fatal, note, ◌◂◌}

abbrev pub Exec : Type 0 → Type 0 → Type 0
Exec E A = List E → Outcome A × List E

module _ {E A : Type 0} where
  unfoldable pub pure : A → Exec E A
  pure a h = (ok a, h)

  unfoldable pub raise : Error → Exec E A
  raise e h = (err e, h)

  unfoldable pub crash : Exec E A
  crash h = (panic, h)

  -- `log.Fatalf`
  unfoldable pub exit : Error → Exec E A
  exit e h = (fatal e, h)

  -- A function with no effect.
  unfoldable pub lift : Outcome A → Exec E A
  lift r h = (r, h)

  -- One call to the outside: the event, and the answer in the history so far.
  unfoldable pub ask : E → (List E → A) → Exec E A
  ask e answer h = (ok (answer h), e ∷ h)

module _ {E A B : Type 0} where
  abbrev pub continue : Outcome A → (A → Exec E B) → Exec E B
  continue (ok a) f h = f a h
  continue (err e) f h = (err e, h)
  continue panic f h = (panic, h)
  continue (fatal e) f h = (fatal e, h)

  infixl 10 ◌>>=◌ ◌>>◌
  unfoldable pub ◌>>=◌ : Exec E A → (A → Exec E B) → Exec E B
  unfolding pure raise crash exit lift ask
  ◌>>=◌ m f h = let (r, h') = m h in continue r f h'

  abbrev pub ◌>>◌ : Exec E A → Exec E B → Exec E B
  m >> n = m >>= λ _. n

module _ {E : Type 0} where
  -- `if bad { return err }`
  unfoldable pub refuse_if : Bool → Error → Exec E (Unit {0})
  unfolding pure raise
  refuse_if bad e = if bad then raise e else pure tt

  -- `if test { … }`
  unfoldable pub when : Bool → Exec E (Unit {0}) → Exec E (Unit {0})
  unfolding pure
  when test m = if test then m else pure tt

module _ {E A : Type 0} where
  -- What an error path does before it returns: `if err != nil { … }`.
  abbrev pub handle : (Error → Exec E A) → Outcome A → Exec E A
  handle recover (ok a) h = (ok a, h)
  handle recover (err e) h = recover e h
  handle recover panic h = (panic, h)
  handle recover (fatal e) h = (fatal e, h)

  unfoldable pub on_error : Exec E A → (Error → Exec E A) → Exec E A
  on_error m recover h = let (r, h') = m h in handle recover r h'

  -- `if err != nil { return fmt.Errorf("prefix: %v", err) }`
  unfoldable pub wrap : String → Exec E A → Exec E A
  unfolding on_error raise
  wrap s m = on_error m λ e. raise (note s ◂ e)
