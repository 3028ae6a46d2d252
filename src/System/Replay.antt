-- ===== src/System/Replay.antt =====
-- A nonce is used once.
use accounts_superposition_s.Prelude.{
  ◌≡◌, ◌≢◌, refl, sym, ap, ◌∙◌, ◌⊎◌, inl, inr, Bytes, [], ◌∷◌, Bool, false, Option, ℤ,
}
use accounts_superposition_s.Outcome.{ok}
use accounts_superposition_s.Exec.Emits.{Added, same, more, Added-trans}
use accounts_superposition_s.Exec.Along.{Returned-Added}
use accounts_superposition_s.Exec.Inversion.{
  pure-Returned, bind-Returned, lift-Returned, wrap-Returned, refuse_if-Returned,
}
use accounts_superposition_s.Go.{to_lower}
use accounts_superposition_s.World.{Event, insert_nonce_secret, answer, History, Externals}
use accounts_superposition_s.Events.{Reads-Any}
use accounts_superposition_s.Graph.Effects.{check_code-Emits, make_secret-Emits}
use accounts_superposition_s.Graph.Resolver.{Config, Context, is_dryrun}
use accounts_superposition_s.Graph.Account.{request_secret}
use accounts_superposition_s.Graph.Created.{insert-Returned}
use accounts_superposition_s.Graph.Minted.{when-Returned, not_dry}
use accounts_superposition_s.System.Provenance.{kept_as}

module _ (x : Externals) where
  -- The event, asked after `h`, put the nonce of the text into the database.
  abbrev pub Consumes : Bytes → ℤ → Event → History → Type 0
  Consumes text nonce (insert_nonce_secret t secret n) h =
      (t ≡ text) × (n ≡ nonce) × (x.exec_result (insert_nonce_secret t secret n) h ≡ answer tt)
  Consumes text nonce _ h = ⊥

  abbrev pub Used : Bytes → ℤ → History → Type 0
  Used text nonce [] = ⊥
  Used text nonce (e ∷ h) = Consumes text nonce e h ⊎ Used text nonce h

  -- The unique index on address and nonce: an insertion that succeeds is the first one.
  abbrev pub UniqueNonces : Type 0
  UniqueNonces =
      (text secret : Bytes) (nonce : ℤ) (h : History)
      → x.exec_result (insert_nonce_secret text secret nonce) h ≡ answer tt
      → ¬ Used text nonce h

  Used-Added :
      {P : Event → Type 0} (text : Bytes) (nonce : ℤ) {h h' : History}
      → Added P h h'
      → Used text nonce h
      → Used text nonce h'
  Used-Added text nonce same u = u
  Used-Added text nonce (more e p q) u = inr (Used-Added text nonce q u)

  -- The last event from `h` to `h'` is a successful insertion.
  abbrev pub IsInserted : Bytes → Bytes → ℤ → History → History → Type 0
  IsInserted text secret nonce h h' =
      (h₁ : History) × Added (λ _. Unit {0}) h h₁
      × (x.exec_result (insert_nonce_secret text secret nonce) h₁ ≡ answer tt)
      × (h' ≡ insert_nonce_secret text secret nonce ∷ h₁)

  IsInserted-intro :
      (text : Bytes) (nonce : ℤ) {h h₁ h₂ h₃ h' : History} {s secret : Bytes}
      → h ≡ h₁
      → Added (λ _. Unit {0}) h₁ h₂
      → x.exec_result (insert_nonce_secret text s nonce) h₂ ≡ answer tt
      → h₃ ≡ insert_nonce_secret text s nonce ∷ h₂
      → s ≡ secret
      → h₃ ≡ h'
      → IsInserted text secret nonce h h'
  IsInserted-intro text nonce {h₂ = h₂} same_start grown stored e value last =
      (h₂, rw same_start grown, rw (← value) stored, rw (← value) (sym last ∙ e))

  module _ (r : Config) (ctx : Context) where
    -- A secret that was handed out has been put into the database with its nonce.
    pub request_secret-Stored :
        (eoa : Bytes) (nonce sig_v : ℤ) (sig_r sig_s : Bytes) (dryrun : Option Bool) (h : History)
        (secret : Bytes)
        → is_dryrun dryrun ≡ false
        → (request_secret x r ctx eoa nonce sig_v sig_r sig_s dryrun h).0 ≡ ok secret
        → IsInserted
            (kept_as x r eoa)
            secret
            nonce
            h
            (request_secret x r ctx eoa nonce sig_v sig_r sig_s dryrun h).1
    unfolding request_secret
    request_secret-Stored eoa nonce sig_v sig_r sig_s dryrun h secret wet p =
        let (u₁, h₁, p₁, rest₁) = bind-Returned (record { value = p; history = refl }) in
        let (sr, h₂, p₂, rest₂) = bind-Returned rest₁ in
        let (ss, h₃, p₃, rest₃) = bind-Returned rest₂ in
        let (u₄, h₄, p₄, rest₄) = bind-Returned rest₃ in
        let (v, h₅, p₅, rest₅) = bind-Returned rest₄ in
        let (key, h₆, p₆, rest₆) = bind-Returned rest₅ in
        let (u₇, h₇, p₇, rest₇) = bind-Returned rest₆ in
        let (u₈, h₈, p₈, rest₈) = bind-Returned rest₇ in
        let (s, h₉, p₉, rest₉) = bind-Returned rest₈ in
        let (u, h₁₀, p₁₀, rest₁₀) = bind-Returned rest₉ in
        let (stored, e) = insert-Returned x r _ (when-Returned _ (not_dry _ wet) p₁₀) in
        let (value, last) = pure-Returned rest₁₀ in
        let checked =
          (refuse_if-Returned _ _ p₁).1
          ∙ (lift-Returned (wrap-Returned _ _ p₂)).1
          ∙ (lift-Returned (wrap-Returned _ _ p₃)).1
          ∙ (refuse_if-Returned _ _ p₄).1
          ∙ (lift-Returned p₅).1
          ∙ (lift-Returned (wrap-Returned _ _ p₆)).1
          ∙ (refuse_if-Returned _ _ p₇).1 in
        IsInserted-intro (kept_as x r eoa) nonce checked
          (Added-trans (Returned-Added (check_code-Emits x Reads-Any r _) p₈)
            (Returned-Added (make_secret-Emits x Reads-Any) p₉))
          stored e value last

    -- A nonce buys one secret: after `RequestSecret` has handed out a secret for an address and a
    -- nonce, it hands out no other for the same address and nonce, whatever signature comes with it
    -- and whatever happened in between. Neither is a dry run, and the database keeps its unique index
    -- on address and nonce.
    pub request_secret-no_replay :
        (eoa again : Bytes) (nonce v v' : ℤ) (sr ss sr' ss' : Bytes) (dryrun dryrun' : Option Bool)
        (h later : History) (secret other : Bytes)
        → UniqueNonces
        → is_dryrun dryrun ≡ false
        → is_dryrun dryrun' ≡ false
        → x.hex_to_address again ≡ x.hex_to_address eoa
        → (request_secret x r ctx eoa nonce v sr ss dryrun h).0 ≡ ok secret
        → Added (λ _. Unit {0}) (request_secret x r ctx eoa nonce v sr ss dryrun h).1 later
        → (request_secret x r ctx again nonce v' sr' ss' dryrun' later).0 ≢ ok other
    request_secret-no_replay eoa again nonce v v' sr ss sr' ss' dryrun dryrun' h later secret other
          unique wet wet' same_eoa p between q =
        let (h₁, grown, stored, e) =
          request_secret-Stored eoa nonce v sr ss dryrun h secret wet p in
        let (h₂, grown', stored', e') =
          request_secret-Stored again nonce v' sr' ss' dryrun' later other wet' q in
        let kept = ap (λ a. to_lower (x.address_string a)) same_eoa in
        unique (kept_as x r again) other nonce h₂ stored' (
          rw kept (
            Used-Added (kept_as x r eoa) nonce (Added-trans (rw e at between) grown')
              (inl (refl, refl, stored))))
