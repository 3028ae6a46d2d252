-- ===== src/Exec/Bounded.antt =====
-- How often a handler asks the outside.
use accounts_superposition_s.Prelude.{
  ℕ, ◌+◌, ◌≤◌, String, List, Bool, true, false, length, if◌then◌else◌, arith,
}
use accounts_superposition_s.Outcome.{Error, note, ◌◂◌, Outcome, ok, err, panic, fatal}
use accounts_superposition_s.Exec.{
  Exec, pure, raise, ask, ◌>>=◌, continue, when, handle, on_error, wrap,
}
use accounts_superposition_s.Exec.Emits.{Added, same, more, Emits, Emits-raise}

-- `m` asks at most `n` times, on every path.
pub record Bounded {E A : Type 0} (n : ℕ) (m : Exec E A) : Type 0 where
  pub at : (h : List E) → length (m h).1 ≤ length h + n

abbrev pub Never : {E : Type 0} → E → Type 0
Never e = ⊥

length-Added : {E : Type 0} {h h' : List E} → Added Never h h' → length h' ≤ length h
length-Added same = omega arith
length-Added (more e never a) = absurd never

module _ {E A : Type 0} where
  pub Bounded-silent : (n : ℕ) (m : Exec E A) → Emits Never m → Bounded n m
  Bounded-silent n m k = record { at = λ h. omega (arith, length-Added (k.at h)) }

  pub Bounded-ask : (e : E) (answer : List E → A) → Bounded 1 (ask e answer)
  unfolding ask
  Bounded-ask e answer = record { at = λ h. omega arith }

  pub Bounded-more : (n k : ℕ) (m : Exec E A) → n ≤ k → Bounded n m → Bounded k m
  Bounded-more n k m le b = record { at = λ h. omega (arith, b.at h) }

  pub Bounded-if :
      (n : ℕ) (b : Bool) (k m : Exec E A)
      → Bounded n k
      → Bounded n m
      → Bounded n (if b then k else m)
  Bounded-if n true k m p q = p
  Bounded-if n false k m p q = q

module _ {E A B : Type 0} where
  continue-length :
      (n : ℕ) (r : Outcome A) (f : A → Exec E B) (h : List E)
      → ((a : A) → Bounded n (f a))
      → length (continue r f h).1 ≤ length h + n
  continue-length n (ok a) f h k = (k a).at h
  continue-length n (err e) f h k = omega arith
  continue-length n panic f h k = omega arith
  continue-length n (fatal e) f h k = omega arith

  pub Bounded-bind :
      (n k : ℕ) (m : Exec E A) (f : A → Exec E B)
      → Bounded n m
      → ((a : A) → Bounded k (f a))
      → Bounded (n + k) (m >>= f)
  unfolding ◌>>=◌
  Bounded-bind n k m f km kf = record {
    at = λ h. let (r, h') = m h in omega (arith, km.at h, continue-length k r f h' kf);
  }

  -- the first part asks nothing
  pub Bounded-skip :
      (n : ℕ) (m : Exec E A) (f : A → Exec E B)
      → Emits Never m
      → ((a : A) → Bounded n (f a))
      → Bounded n (m >>= f)
  Bounded-skip n m f km kf =
      let b = Bounded-bind 0 n m f (Bounded-silent 0 m km) kf in
      record { at = λ h. omega (arith, b.at h) }

  -- the rest asks nothing
  pub Bounded-last :
      (n : ℕ) (m : Exec E A) (f : A → Exec E B)
      → Bounded n m
      → ((a : A) → Emits Never (f a))
      → Bounded n (m >>= f)
  Bounded-last n m f km kf =
      let b = Bounded-bind n 0 m f km (λ a. Bounded-silent 0 (f a) (kf a)) in
      record { at = λ h. omega (arith, b.at h) }

module _ {E : Type 0} where
  pub Bounded-when : (n : ℕ) (b : Bool) (m : Exec E Unit) → Bounded n m → Bounded n (when b m)
  unfolding when pure
  Bounded-when n true m k = k
  Bounded-when n false m k = record { at = λ h. omega arith }

module _ {E A : Type 0} where
  handle-length :
      (n : ℕ) (recover : Error → Exec E A) (r : Outcome A) (h : List E)
      → ((e : Error) → Bounded n (recover e))
      → length (handle recover r h).1 ≤ length h + n
  handle-length n recover (ok a) h k = omega arith
  handle-length n recover (err e) h k = (k e).at h
  handle-length n recover panic h k = omega arith
  handle-length n recover (fatal e) h k = omega arith

  pub Bounded-on_error :
      (n k : ℕ) (m : Exec E A) (recover : Error → Exec E A)
      → Bounded n m
      → ((e : Error) → Bounded k (recover e))
      → Bounded (n + k) (on_error m recover)
  unfolding on_error
  Bounded-on_error n k m recover km kr = record {
    at = λ h. let (r, h') = m h in omega (arith, km.at h, handle-length k recover r h' kr);
  }

  pub Bounded-wrap : (n : ℕ) (s : String) (m : Exec E A) → Bounded n m → Bounded n (wrap s m)
  unfolding wrap
  Bounded-wrap n s m km =
      let b =
        Bounded-on_error n 0 m (λ e. raise (note s ◂ e)) km
          (λ e. Bounded-silent 0 _ (Emits-raise _)) in
      record { at = λ h. omega (arith, b.at h) }
