-- ===== src/Exec/Once.antt =====
-- Handlers that raise an event of one kind at most once.
use accounts_superposition_s.Prelude.{
  ℕ, suc, ◌+◌, ◌≤◌, ◌≡◌, refl, String, List, [], ◌∷◌, Bool, false, if◌then◌else◌, arith,
}
use accounts_superposition_s.Outcome.{Error, Outcome, ok, err, panic, fatal}
use accounts_superposition_s.Exec.{Exec, ask, ◌>>=◌, continue, handle, on_error, wrap}
use accounts_superposition_s.Exec.Emits.{Added, same, more, Emits, Emits-raise}

-- how many events of a history are of the kind
abbrev pub count : {E : Type 0} → (E → Bool) → List E → ℕ
count p [] = 0
count p (e ∷ h) = if p e then suc (count p h) else count p h

pub record Once {E A : Type 0} (p : E → Bool) (m : Exec E A) : Type 0 where
  pub at : (h : List E) → count p (m h).1 ≤ count p h + 1

abbrev pub Not : {E : Type 0} → (E → Bool) → E → Type 0
Not p e = p e ≡ false

pub count-Added :
    {E : Type 0} (p : E → Bool) {h h' : List E} → Added (Not p) h h' → count p h' ≡ count p h
count-Added p same = refl
count-Added p (more {h'} e q a) = ground (arith, count-Added p a)

module _ {E A : Type 0} {p : E → Bool} where
  pub Once-Emits : (m : Exec E A) → Emits (Not p) m → Once p m
  Once-Emits m k = record { at = λ h. omega (arith, count-Added p (k.at h)) }

  pub Once-ask : (e : E) (answer : List E → A) → Once p (ask e answer)
  unfolding ask
  Once-ask e answer = record { at = λ h. ground arith }

module _ {E A B : Type 0} {p : E → Bool} where
  first_continue :
      (r : Outcome A) (f : A → Exec E B) (h : List E)
      → ((a : A) → Once p (f a))
      → count p (continue r f h).1 ≤ count p h + 1
  first_continue (ok a) f h k = (k a).at h
  first_continue (err e) f h k = omega arith
  first_continue panic f h k = omega arith
  first_continue (fatal e) f h k = omega arith

  last_continue :
      (r : Outcome A) (f : A → Exec E B) (h : List E)
      → ((a : A) → Emits (Not p) (f a))
      → count p (continue r f h).1 ≡ count p h
  last_continue (ok a) f h k = count-Added p ((k a).at h)
  last_continue (err e) f h k = refl
  last_continue panic f h k = refl
  last_continue (fatal e) f h k = refl

  -- the event comes in the rest
  pub Once-bind_rest :
      (m : Exec E A) (f : A → Exec E B)
      → Emits (Not p) m
      → ((a : A) → Once p (f a))
      → Once p (m >>= f)
  unfolding ◌>>=◌
  Once-bind_rest m f km kf = record {
    at = λ h. let (r, h') = m h in omega (arith, count-Added p (km.at h), first_continue r f h' kf);
  }

  -- the event comes in the first part
  pub Once-bind_head :
      (m : Exec E A) (f : A → Exec E B)
      → Once p m
      → ((a : A) → Emits (Not p) (f a))
      → Once p (m >>= f)
  unfolding ◌>>=◌
  Once-bind_head m f km kf = record {
    at = λ h. let (r, h') = m h in omega (arith, km.at h, last_continue r f h' kf);
  }

module _ {E A : Type 0} {p : E → Bool} where
  count-handle :
      (recover : Error → Exec E A) (r : Outcome A) (h : List E)
      → ((e : Error) → Emits (Not p) (recover e))
      → count p (handle recover r h).1 ≡ count p h
  count-handle recover (ok a) h k = refl
  count-handle recover (err e) h k = count-Added p ((k e).at h)
  count-handle recover panic h k = refl
  count-handle recover (fatal e) h k = refl

  pub Once-on_error :
      (m : Exec E A) (recover : Error → Exec E A)
      → Once p m
      → ((e : Error) → Emits (Not p) (recover e))
      → Once p (on_error m recover)
  unfolding on_error
  Once-on_error m recover km kr = record {
    at = λ h. let (r, h') = m h in omega (arith, km.at h, count-handle recover r h' kr);
  }

  pub Once-wrap : (s : String) (m : Exec E A) → Once p m → Once p (wrap s m)
  unfolding wrap
  Once-wrap s m km = Once-on_error m _ km (λ e. Emits-raise _)

pub ruleset once_rules = (Once-ask, Once-bind_rest, Once-bind_head, Once-on_error, Once-wrap)
