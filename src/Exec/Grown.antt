-- ===== src/Exec/Grown.antt =====
-- What a handler asks, where the reason of an event is in what was asked before it.
use accounts_superposition_s.Prelude.{◌≡◌, refl, List, [], ◌∷◌, Bool, true, false}
use accounts_superposition_s.Outcome.{Outcome, ok, err, panic, fatal}
use accounts_superposition_s.Exec.{Exec, pure, when, ◌>>=◌, continue}
use accounts_superposition_s.Exec.Emits.{Added, same, more}
use accounts_superposition_s.Exec.Inversion.{Returned}

-- `h'` is `h` with events added, and `J` holds of each and of what there was before it.
pub data Grown {E : Type 0} (J : E → List E → Type 0) (h : List E) : List E → Type 0 where
  still : Grown J h h
  grow : {h' : List E} (e : E) → J e h' → Grown J h h' → Grown J h (e ∷ h')

-- `J` holds of every event and of what there was before it.
abbrev pub Each : {E : Type 0} → (E → List E → Type 0) → List E → Type 0
Each J [] = Unit
Each J (e ∷ h) = J e h × Each J h

module _ {E : Type 0} {J : E → List E → Type 0} where
  pub Grown-trans : {a b c : List E} → Grown J a b → Grown J b c → Grown J a c
  Grown-trans p still = p
  Grown-trans p (grow e j q) = grow e j (Grown-trans p q)

  pub Grown-Added :
      {P : E → Type 0} {h h' : List E}
      → ((e : E) (h : List E) → P e → J e h)
      → Added P h h'
      → Grown J h h'
  Grown-Added k same = still
  Grown-Added k (more {h'} e p q) = grow e (k e h' p) (Grown-Added k q)

  pub Each-Grown : {h h' : List E} → Grown J h h' → Each J h → Each J h'
  Each-Grown still a = a
  Each-Grown (grow e j q) a = (j, Each-Grown q a)

  pub Each-map :
      {K : E → List E → Type 0} (h : List E)
      → ((e : E) (h : List E) → K e h → J e h)
      → Each K h
      → Each J h
  Each-map [] k a = tt
  Each-map (e ∷ h) k (j, a) = (k e h j, Each-map h k a)

module _ {E A B : Type 0} {J : E → List E → Type 0} where
  continue-Grown :
      (r : Outcome A) (f : A → Exec E B) (h : List E)
      → ((a : A) → r ≡ ok a → Grown J h (f a h).1)
      → Grown J h (continue r f h).1
  continue-Grown (ok a) f h k = k a refl
  continue-Grown (err e) f h k = still
  continue-Grown panic f h k = still
  continue-Grown (fatal e) f h k = still

  -- A later part may use that the earlier ones returned.
  pub Grown-bind :
      (m : Exec E A) (f : A → Exec E B) (h : List E)
      → Grown J h (m h).1
      → ((a : A) (h' : List E) → Returned m h a h' → Grown J h' (f a h').1)
      → Grown J h ((m >>= f) h).1
  unfolding ◌>>=◌
  Grown-bind m f h km kf = Grown-trans km (
      continue-Grown (m h).0 f (m h).1 (λ a e. kf a (m h).1 (record { value = e; history = refl })))

module _ {E : Type 0} {J : E → List E → Type 0} where
  pub Grown-when :
      (b : Bool) (m : Exec E (Unit {0})) (h : List E)
      → (b ≡ true → Grown J h (m h).1)
      → Grown J h (when b m h).1
  unfolding when pure
  Grown-when true m h k = k refl
  Grown-when false m h k = still
