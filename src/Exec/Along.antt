-- ===== src/Exec/Along.antt =====
-- What a handler asks of the outside, step by step: a later part may use that the earlier ones
-- returned.
use accounts_superposition_s.Prelude.{◌≡◌, refl, List}
use accounts_superposition_s.Outcome.{Outcome, ok, err, panic, fatal}
use accounts_superposition_s.Exec.{Exec, ◌>>=◌, continue}
use accounts_superposition_s.Exec.Emits.{Added, same, Added-trans, Emits}
use accounts_superposition_s.Exec.Inversion.{Returned}

module _ {E A B : Type 0} {P : E → Type 0} where
  continue-Added :
      (r : Outcome A) (f : A → Exec E B) (h : List E)
      → ((a : A) → r ≡ ok a → Added P h (f a h).1)
      → Added P h (continue r f h).1
  continue-Added (ok a) f h k = k a refl
  continue-Added (err e) f h k = same
  continue-Added panic f h k = same
  continue-Added (fatal e) f h k = same

  pub Added-bind :
      (m : Exec E A) (f : A → Exec E B) (h : List E)
      → Emits P m
      → ((a : A) (h' : List E) → Returned m h a h' → Added P h' (f a h').1)
      → Added P h ((m >>= f) h).1
  unfolding ◌>>=◌
  Added-bind m f h km kf =
      let (r, h') = m h in
      Added-trans (km.at h) (
        continue-Added (m h).0 f (m h).1
          (λ a e. kf a (m h).1 (record { value = e; history = refl })))

pub Returned-Added :
    {E A : Type 0} {P : E → Type 0} {m : Exec E A} {h h' : List E} {a : A}
    → Emits P m
    → Returned m h a h'
    → Added P h h'
Returned-Added {m = m} {h} km p = rw (← p.history) (km.at h)
