-- ===== src/Concurrent/Order.antt =====
-- Of two events of different handlers, one comes first.
use accounts_superposition_s.Prelude.{
  ℕ, ◌≡◌, ◌≢◌, refl, ◌⊎◌, inl, inr, [], ◌∷◌, Bool-cases, ◌==◌, ==_iff,
}
use accounts_superposition_s.World.{Event, History}
use accounts_superposition_s.Concurrent.{Shared, everything, own, IsInterleaving}

-- `b` is what there was at some moment before `g`.
pub data Before (b : Shared) : Shared → Type 0 where
  now : Before b b
  later : {g : Shared} (i : ℕ) (e : Event) → Before b g → Before b ((i, e) ∷ g)

-- The handler's newest event stands somewhere in what all have asked.
pub asked_at :
    (i : ℕ) (e : Event) (h : History) (g : Shared)
    → own i g ≡ e ∷ h
    → (b : Shared) × Before ((i, e) ∷ b) g × (own i b ≡ h)
unfolding own
asked_at i e h [] p = absurd (cc (p))
asked_at i e h ((j, f) ∷ g) p = elim (Bool-cases (j == i)) [
  | inl here ↦
      let q : f ∷ own i g ≡ e ∷ h = rw here at p in
      (g, rw ((==_iff j i).0 here, head_eq q) Before.now, tail_eq q)
  | inr there ↦
      let (b, before, same) = asked_at i e h g (rw there at p) in (b, Before.later j f before, same)
]
  where
    head_eq : {a b : Event} {l m : History} → a ∷ l ≡ b ∷ m → a ≡ b
    head_eq q = cc (q)

    tail_eq : {a b : Event} {l m : History} → a ∷ l ≡ b ∷ m → l ≡ m
    tail_eq q = cc (q)

-- The event was answered as of its moment.
pub asked-now :
    (clock : ℕ → History → History) (i : ℕ) (e : Event) (b g : Shared)
    → IsInterleaving clock g
    → Before ((i, e) ∷ b) g
    → clock i (own i b) ≡ everything b
asked-now clock i e b g is Before.now = is.0
asked-now clock i e b ((j, f) ∷ g) is (Before.later _ _ before) =
    asked-now clock i e b g is.1 before

pub one_first :
    (i j : ℕ) (e f : Event) (b c g : Shared)
    → i ≢ j
    → Before ((i, e) ∷ b) g
    → Before ((j, f) ∷ c) g
    → Before ((i, e) ∷ b) c ⊎ Before ((j, f) ∷ c) b
one_first i j e f b c [] n p q = elim p [ ]
one_first i j e f b c ((k, a) ∷ g) n (Before.later _ _ p) (Before.later _ _ q) =
    one_first i j e f b c g n p q
one_first i j e f b c ((k, a) ∷ g) n (Before.later _ _ p) Before.now = inl p
one_first i j e f b c ((k, a) ∷ g) n Before.now (Before.later _ _ q) = inr q
one_first i j e f b c ((k, a) ∷ g) n Before.now Before.now = absurd (n refl)
