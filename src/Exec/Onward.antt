-- ===== src/Exec/Onward.antt =====
-- From a step that has returned, or that adds events of a kind only, onward to a value.
use accounts_superposition_s.Prelude.{◌≡◌, refl, String, List, Bool, false}
use accounts_superposition_s.Outcome.{Error, Outcome, ok}
use accounts_superposition_s.Exec.{Exec, pure, lift, wrap, on_error, refuse_if, ◌>>=◌}
use accounts_superposition_s.Exec.Emits.{Added, Emits}
use accounts_superposition_s.Exec.Inversion.{Returned}
use accounts_superposition_s.Exec.Progress.{Returns, Returns-bind_at}

module _ {E A : Type 0} where
  pub wrapped-Returned :
      (s : String) (r : Outcome A) (h : List E) (a : A)
      → r ≡ ok a
      → Returned (wrap s (lift r)) h a h
  unfolding wrap on_error lift
  wrapped-Returned s r h a e = rw e (record { value = refl; history = refl })

  pub lifted-Returned : (r : Outcome A) (h : List E) (a : A) → r ≡ ok a → Returned (lift r) h a h
  unfolding lift
  lifted-Returned r h a e = record { value = e; history = refl }

pub passed-Returned :
    {E : Type 0} (bad : Bool) (e : Error) (h : List E)
    → bad ≡ false
    → Returned (refuse_if bad e) h tt h
unfolding refuse_if pure
passed-Returned bad e h p = rw p (record { value = refl; history = refl })

module _ {E A B : Type 0} (m : Exec E A) (f : A → Exec E B) (h : List E) where
  pub Returns-after :
      {a : A} {h' : List E} → Returned m h a h' → Returns (f a) h' → Returns (m >>= f) h
  Returns-after p q = Returns-bind_at m f h _ p.value (rw p.history q)

  pub Returns-bind-Added :
      {P : E → Type 0}
      → Emits P m
      → Returns m h
      → ((a : A) (h' : List E) → Added P h h' → Returns (f a) h')
      → Returns (m >>= f) h
  Returns-bind-Added adds p k =
      Returns-bind_at m f h p.value p.returned (k p.value (m h).1 (adds.at h))

  pub Returns-bind_with :
      Returns m h
      → ((a : A) (h' : List E) → Returned m h a h' → Returns (f a) h')
      → Returns (m >>= f) h
  Returns-bind_with p k =
      Returns-bind_at m f h p.value p.returned
        (k p.value (m h).1 (record { value = p.returned; history = refl }))
