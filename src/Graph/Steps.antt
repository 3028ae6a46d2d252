-- ===== src/Graph/Steps.antt =====
-- When the pieces of the resolvers return.
use accounts_superposition_s.Prelude.{ℕ, ◌≡◌, refl, ap, ◌∙◌, Bytes, String, some, length}
use accounts_superposition_s.Outcome.{ok}
use accounts_superposition_s.Exec.{pure, ask, lift, wrap, on_error}
use accounts_superposition_s.Exec.Progress.{
  Returns, returns_rules, Returns-pure, Returns-bind, Returns-bind_at, Returns-on_error,
  Returns-wrap, Returns-lift,
}
use accounts_superposition_s.Exec.Inversion.{
  Returned, pure-Returned, bind-Returned, lift-Returned, wrap-Returned, on_error-Returned,
  exit-never,
}
use accounts_superposition_s.Client.Sent.{outcome-eq-ok}
use accounts_superposition_s.World.{Event, Reply, answer, outcome, History, Externals}
use accounts_superposition_s.Cooperation.{Answers, IsCooperative}
use accounts_superposition_s.Client.Progress.{Answers-IsOk, call-Returns}
use accounts_superposition_s.Db.{some_row, pick_private_key}
use accounts_superposition_s.Graph.Resolver.{Config, checked_secret, make_secret, track_tx}
use accounts_superposition_s.Graph.Send.{picked_key}
use accounts_superposition_s.Graph.Account.{insert}

wrapped_outcome :
    {A : Type 0} (s : String) (r : Reply A) (h : History) (a : A)
    → r ≡ answer a
    → (wrap s (lift (outcome r)) h).0 ≡ ok a
unfolding wrap on_error lift
wrapped_outcome s r h a e = rw e refl

some_row-ok : (s : Bytes) (h : History) → (some_row (some s) h).0 ≡ ok s
unfolding some_row pure
some_row-ok s h = refl

pub track_tx-Returns :
    (x : Externals) (eoa hash : Bytes) (gas : ℕ) (desc : String) (h : History)
    → Returns (track_tx x eoa hash gas desc) h
unfolding track_tx
track_tx-Returns x eoa hash gas desc h = search returns_rules

module _ (x : Externals) where
  pub make_secret-Returns :
      (h : History)
      → (b : Bytes) × (x.random_bytes 32 h ≡ answer b) × (length b ≡ 32)
      → Returns (make_secret x) h
  unfolding make_secret ask checked_secret
  make_secret-Returns h (b, given, size) =
      Returns-bind_at _ _ h (x.random_bytes 32 h) refl (rw (given, size) (Returns-pure _ _))

  pub insert-Returns :
      (r : Config) (e : Event) (h : History)
      → Answers (x.exec_result e h)
      → Returns (insert x r e) h
  unfolding insert
  insert-Returns r e h a = Returns-on_error _ _ h (call-Returns e (x.exec_result e) h a)

module _ (x : Externals) where
  -- The key that was picked is the one that a text stands for.
  pub pick_private_key-Returned :
      {key : Bytes × Bytes} {h h' : History}
      → Returned (pick_private_key x) h key h'
      → (s : Bytes) × (x.hex_to_ecdsa s ≡ answer key.0)
  unfolding pick_private_key
  pick_private_key-Returned p =
      let (r, h₁, p₁, rest₁) = bind-Returned p in
      let (row, h₂, p₂, rest₂) = bind-Returned rest₁ in
      let (s, h₃, p₃, rest₃) = bind-Returned rest₂ in
      let (key, h₄, p₄, rest₄) = bind-Returned rest₃ in
      let value = (pure-Returned rest₄).0 in
      (
        s,
        outcome-eq-ok _ (lift-Returned (wrap-Returned _ _ p₄)).0
            ∙ ap (λ (k : Bytes × Bytes). answer k.0) value,
      )

  pub picked_key-Returned :
      (r : Config) {key : Bytes × Bytes} {h h' : History}
      → Returned (picked_key x r) h key h'
      → (s : Bytes) × (x.hex_to_ecdsa s ≡ answer key.0)
  unfolding picked_key
  picked_key-Returned r p = pick_private_key-Returned (on_error-Returned _ _ (λ e. exit-never _) p)

module _ (x : Externals) (all : IsCooperative x) where
  pub pick_private_key-Returns : (h : History) → Returns (pick_private_key x) h
  unfolding pick_private_key ask
  pick_private_key-Returns h =
      let (s, stored, is_key) = all.row h in
      Returns-bind_at _ _ h (x.private_key_row h) refl (
        Returns-bind_at _ _ _ (some s) (wrapped_outcome _ _ _ _ stored) (
          Returns-bind_at _ _ _ s (some_row-ok s _) (
            Returns-bind _ _ _ (Returns-wrap _ _ _ (Returns-lift _ _ (Answers-IsOk is_key)))
              λ key h₁. Returns-pure _ h₁)))

  pub picked_key-Returns : (r : Config) (h : History) → Returns (picked_key x r) h
  unfolding picked_key
  picked_key-Returns r h = Returns-on_error _ _ h (pick_private_key-Returns h)
