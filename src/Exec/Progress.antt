-- ===== src/Exec/Progress.antt =====
-- When a handler returns a value.
use accounts_superposition_s.Prelude.{◌≡◌, refl, String, List, Bool, true, false}
use accounts_superposition_s.Outcome.{Error, Outcome, ok}
use accounts_superposition_s.Exec.{Exec, pure, lift, ask, ◌>>=◌, refuse_if, when, on_error, wrap}

abbrev pub IsOk : {A : Type 0} → Outcome A → Type 0
IsOk {A} r = (a : A) × (r ≡ ok a)

-- After the history `h`, `m` returns a value.
pub record Returns {E A : Type 0} (m : Exec E A) (h : List E) : Type 0 where
  pub value : A
  pub returned : (m h).0 ≡ ok value

module _ {E A : Type 0} where
  pub Returns-pure : (a : A) (h : List E) → Returns (pure a) h
  unfolding pure
  Returns-pure a h = record { value = a; returned = refl }

  pub Returns-lift : (r : Outcome A) (h : List E) → IsOk r → Returns (lift r) h
  unfolding lift
  Returns-lift r h (a, e) = record { value = a; returned = e }

  pub Returns-ask : (e : E) (answer : List E → A) (h : List E) → Returns (ask e answer) h
  unfolding ask
  Returns-ask e answer h = record { value = answer h; returned = refl }

  pub Returns-on_error :
      (m : Exec E A) (recover : Error → Exec E A) (h : List E)
      → Returns m h
      → Returns (on_error m recover) h
  unfolding on_error
  Returns-on_error m recover h p = record { value = p.value; returned = rw p.returned }

  pub Returns-wrap : (s : String) (m : Exec E A) (h : List E) → Returns m h → Returns (wrap s m) h
  unfolding wrap
  Returns-wrap s m h p = Returns-on_error m _ h p

module _ {E A B : Type 0} where
  -- The rest returns for this value.
  pub Returns-bind_at :
      (m : Exec E A) (f : A → Exec E B) (h : List E) (a : A)
      → (m h).0 ≡ ok a
      → Returns (f a) (m h).1
      → Returns (m >>= f) h
  unfolding ◌>>=◌
  Returns-bind_at m f h a e p = record { value = p.value; returned = rw e p.returned }

  -- The rest returns for every value.
  pub Returns-bind :
      (m : Exec E A) (f : A → Exec E B) (h : List E)
      → Returns m h
      → ((a : A) (h' : List E) → Returns (f a) h')
      → Returns (m >>= f) h
  Returns-bind m f h p k = Returns-bind_at m f h p.value p.returned (k p.value (m h).1)

module _ {E : Type 0} where
  pub Returns-refuse_if :
      (bad : Bool) (e : Error) (h : List E) → bad ≡ false → Returns (refuse_if bad e) h
  unfolding refuse_if pure
  Returns-refuse_if true e h p = absurd (cc (p))
  Returns-refuse_if false e h p = record { value = tt; returned = refl }

  pub Returns-when :
      (test : Bool) (m : Exec E (Unit {0})) (h : List E) → Returns m h → Returns (when test m) h
  unfolding when pure
  Returns-when true m h p = p
  Returns-when false m h p = record { value = tt; returned = refl }

pub ruleset returns_rules = (
  Returns-pure, Returns-lift, Returns-ask, Returns-on_error, Returns-wrap, Returns-bind,
  Returns-refuse_if, Returns-when,
)
