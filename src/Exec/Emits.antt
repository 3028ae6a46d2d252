-- ===== src/Exec/Emits.antt =====
-- What a handler asks of the outside, whatever the answers are, and where it stops.
use accounts_superposition_s.Prelude.{
  ◌≡◌, refl, String, List, ◌∷◌, Bool, true, false, not, if◌then◌else◌,
}
use accounts_superposition_s.Outcome.{Error, Outcome, ok, err, panic, fatal}
use accounts_superposition_s.Exec.{
  Exec, pure, raise, crash, exit, lift, ask, ◌>>=◌, continue, refuse_if, when, handle, on_error,
  wrap,
}

-- `h'` is `h` with events of `P` added.
pub data Added {E : Type 0} (P : E → Type 0) (h : List E) : List E → Type 0 where
  same : Added P h h
  more : {h' : List E} (e : E) → P e → Added P h h' → Added P h (e ∷ h')

pub Added-trans :
    {E : Type 0} {P : E → Type 0} {a b c : List E} → Added P a b → Added P b c → Added P a c
Added-trans p same = p
Added-trans p (more e pe q) = more e pe (Added-trans p q)

-- `m` adds only events of `P`, on every path.
pub record Emits {E A : Type 0} (P : E → Type 0) (m : Exec E A) : Type 0 where
  pub at : (h : List E) → Added P h (m h).1

module _ {E A : Type 0} {P : E → Type 0} where
  pub Emits-pure : (a : A) → Emits P (pure a)
  unfolding pure
  Emits-pure a = record { at = λ h. same }

  pub Emits-raise : (e : Error) → Emits P (raise {A = A} e)
  unfolding raise
  Emits-raise e = record { at = λ h. same }

  pub Emits-crash : Emits P (crash {A = A})
  unfolding crash
  Emits-crash = record { at = λ h. same }

  pub Emits-exit : (e : Error) → Emits P (exit {A = A} e)
  unfolding exit
  Emits-exit e = record { at = λ h. same }

  pub Emits-lift : (r : Outcome A) → Emits P (lift r)
  unfolding lift
  Emits-lift r = record { at = λ h. same }

  pub Emits-ask : (e : E) (answer : List E → A) → P e → Emits P (ask e answer)
  unfolding ask
  Emits-ask e answer p = record { at = λ h. more e p same }

  pub Emits-if :
      (b : Bool) (m n : Exec E A)
      → (b ≡ true → Emits P m)
      → (b ≡ false → Emits P n)
      → Emits P (if b then m else n)
  Emits-if true m n km kn = km refl
  Emits-if false m n km kn = kn refl

module _ {E A B : Type 0} {P : E → Type 0} where
  continue-Added :
      (r : Outcome A) (f : A → Exec E B) (h : List E)
      → ((a : A) → Emits P (f a))
      → Added P h (continue r f h).1
  continue-Added (ok a) f h kf = (kf a).at h
  continue-Added (err e) f h kf = same
  continue-Added panic f h kf = same
  continue-Added (fatal e) f h kf = same

  pub Emits-bind :
      (m : Exec E A) (f : A → Exec E B) → Emits P m → ((a : A) → Emits P (f a)) → Emits P (m >>= f)
  unfolding ◌>>=◌
  Emits-bind m f km kf = record {
    at = λ h. let (r, h') = m h in Added-trans (km.at h) (continue-Added r f h' kf);
  }

module _ {E : Type 0} {P : E → Type 0} where
  pub Emits-refuse_if : (b : Bool) (e : Error) → Emits P (refuse_if b e)
  unfolding refuse_if
  Emits-refuse_if b e = Emits-if b _ _ (λ _. Emits-raise e) (λ _. Emits-pure tt)

  pub Emits-when : (b : Bool) (m : Exec E Unit) → (b ≡ true → Emits P m) → Emits P (when b m)
  unfolding when
  Emits-when b m km = Emits-if b _ _ km (λ _. Emits-pure tt)

  pub Emits-when-not : (b : Bool) (m : Exec E Unit) → b ≡ true → Emits P (when (not b) m)
  unfolding when
  Emits-when-not true m h = Emits-pure tt
  Emits-when-not false m h = cc

module _ {E A : Type 0} {P : E → Type 0} where
  handle-Added :
      (recover : Error → Exec E A) (r : Outcome A) (h : List E)
      → ((e : Error) → Emits P (recover e))
      → Added P h (handle recover r h).1
  handle-Added recover (ok a) h k = same
  handle-Added recover (err e) h k = (k e).at h
  handle-Added recover panic h k = same
  handle-Added recover (fatal e) h k = same

  pub Emits-on_error :
      (m : Exec E A) (recover : Error → Exec E A)
      → Emits P m
      → ((e : Error) → Emits P (recover e))
      → Emits P (on_error m recover)
  unfolding on_error
  Emits-on_error m recover km kr = record {
    at = λ h. let (r, h') = m h in Added-trans (km.at h) (handle-Added recover r h' kr);
  }

  pub Emits-wrap : (s : String) (m : Exec E A) → Emits P m → Emits P (wrap s m)
  unfolding wrap
  Emits-wrap s m km = Emits-on_error m _ km (λ e. Emits-raise _)

pub ruleset emits_rules = (
  Emits-pure, Emits-raise, Emits-crash, Emits-exit, Emits-lift, Emits-ask, Emits-if, Emits-bind,
  Emits-refuse_if, Emits-when, Emits-on_error, Emits-wrap,
)
