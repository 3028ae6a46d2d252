-- ===== src/System/Owners.antt =====
-- From an authenticated context back to the owner of its account.
use accounts_superposition_s.Prelude.{
  ℕ, ◌≡◌, ◌≢◌, sym, ap, ◌∙◌, ◌⊎◌, inl, inr, Bytes, String, List, [], ◌∷◌, true, Option, some, ℤ,
  Bool,
}
use accounts_superposition_s.Outcome.{ok}
use accounts_superposition_s.Exec.Emits.{Added, Added-trans, same, more}
use accounts_superposition_s.Exec.Grown.{Each}
use accounts_superposition_s.Events.{Any}
use accounts_superposition_s.Go.{to_lower}
use accounts_superposition_s.Model
use accounts_superposition_s.World.{
  Event, insert_secret, insert_nonce_secret, count_secrets, answer, History, Externals,
}
use accounts_superposition_s.Database.{trim_right}
use accounts_superposition_s.Graph.Resolver.{Config, Context, authed_of}
use accounts_superposition_s.Graph.Created.{IsOpened}
use accounts_superposition_s.Graph.Secrets.{IsSignedBy}
use accounts_superposition_s.Server.Auth.{Request, serve, serve_http}
use accounts_superposition_s.Server.Auth.Sound.{serve_http_sound}
use accounts_superposition_s.System.Provenance.{kept_as, Justified}
use accounts_superposition_s.System.Requests.{creates, requests, Arrival, history_of}
use accounts_superposition_s.System.Invariant.{Requested, history_of-Justified}

-- The event inserts the secret for the text. The blanks at the end of a text do not count.
abbrev pub Stores : Bytes → Bytes → Event → Type 0
Stores text secret (insert_secret t s) =
    (trim_right t ≡ trim_right text) × (trim_right s ≡ trim_right secret)
Stores text secret (insert_nonce_secret t s nonce) =
    (trim_right t ≡ trim_right text) × (trim_right s ≡ trim_right secret)
Stores text secret _ = ⊥

abbrev pub Stored : Bytes → Bytes → History → Type 0
Stored text secret [] = ⊥
Stored text secret (e ∷ h) = Stores text secret e ⊎ Stored text secret h

-- The database counts no pair of an address and a secret that was not inserted.
abbrev pub CountsStored : Externals → Type 0
CountsStored x =
    (text secret : Bytes) (count : ℕ) (h : History)
    → x.count_row (count_secrets text secret) h ≡ answer count
    → count ≢ 0
    → Stored text secret h

-- An address that is printed and read back in lower case is the same address.
abbrev pub ReadsBack : Externals → Type 0
ReadsBack x =
    (text : Bytes)
    → x.hex_to_address (to_lower (x.address_string (x.hex_to_address text))) ≡ x.hex_to_address text

-- An address is printed without blanks at its end.
abbrev pub PrintsTrimmed : Externals → Type 0
PrintsTrimmed x =
    (a : Bytes) → trim_right (to_lower (x.address_string a)) ≡ to_lower (x.address_string a)

module _ (x : Externals) (r : Config) where
  -- The owner of an address has asked for its account in one of the requests, and it was opened
  -- within the history, or has signed for it in one of the requests.
  pub data IsOwned (past : List Arrival) (h : History) (eoa : Bytes) : Type 0 where
    opened :
        (c : Model.CreateAccount) (mint : Option Model.Mint) (dryrun : Option Bool) (hash : Bytes)
        (after : History)
        → Requested past (creates c mint dryrun)
        → IsOpened x r c mint hash after
        → Added Any after h
        → x.hex_to_address c.eoa_addr ≡ eoa
        → IsOwned past h eoa
    signed :
        (address : Bytes) (nonce sig_v : ℤ) (sig_r sig_s : Bytes) (dryrun : Option Bool)
        → Requested past (requests address nonce sig_v sig_r sig_s dryrun)
        → IsSignedBy x r.acc_pub_key (x.hex_to_address address) nonce sig_v sig_r sig_s
        → x.hex_to_address address ≡ eoa
        → IsOwned past h eoa

  module _ (reads_back : ReadsBack x) (prints : PrintsTrimmed x) (part : Bytes) where
    same_address :
        (address text : Bytes)
        → text ≡ kept_as x r address
        → trim_right text ≡ trim_right (kept_as x r part)
        → x.hex_to_address address ≡ x.hex_to_address part
    same_address address text p q =
        let kept =
          sym (prints (x.hex_to_address address))
          ∙ ap trim_right (sym p)
          ∙ q
          ∙ prints (x.hex_to_address part) in
        sym (reads_back address) ∙ ap x.hex_to_address kept ∙ reads_back part

    module _ (past : List Arrival) (h : History) where
      Stores-IsOwned :
          (secret : Bytes) (e : Event) (g : History)
          → Justified x r (Requested past) e g
          → Added Any g h
          → Stores (kept_as x r part) secret e
          → IsOwned past h (x.hex_to_address part)
      Stores-IsOwned secret (insert_secret t s) g j later (p, q) =
          opened j.request j.mint j.dryrun j.hash j.after_sending j.requested j.opened
            (Added-trans j.earlier later) (same_address _ t j.kept p)
      Stores-IsOwned secret (insert_nonce_secret t s nonce) g j later (p, q) =
          signed j.address nonce j.sig_v j.sig_r j.sig_s j.dryrun j.requested j.signed
            (same_address _ t j.kept p)
      Stores-IsOwned secret _ g j later s = absurd s

      Stored-IsOwned :
          (secret : Bytes) (g : History)
          → Each (Justified x r (Requested past)) g
          → Added Any g h
          → Stored (kept_as x r part) secret g
          → IsOwned past h (x.hex_to_address part)
      Stored-IsOwned secret [] j later s = absurd s
      Stored-IsOwned secret (e ∷ g) (j, js) later (inl s) =
          Stores-IsOwned secret e g j (Added-trans (more e tt same) later) s
      Stored-IsOwned secret (e ∷ g) (j, js) later (inr s) =
          Stored-IsOwned secret g js (Added-trans (more e tt same) later) s

  -- From an empty database, and whatever requests came in before: a request that the middleware
  -- lets through as authenticated acts for an address whose account one of those requests asked for
  -- and a transaction accepted in their history opened, or for whose key one of them carried a
  -- signature of the service's key and a nonce. The database is one that
  -- counts inserted pairs only, and an address printed and read back in lower case is the same, and
  -- printed without blanks at its end.
  pub authed-IsOwned :
      (admin_secret : Bytes) (past : List Arrival) (n : ℕ) (q : Request)
      (hs : List (String × Bytes)) (ctx : Context)
      → CountsStored x
      → ReadsBack x
      → PrintsTrimmed x
      → (serve_http x admin_secret n q (history_of x r admin_secret past)).0 ≡ ok (hs, serve ctx)
      → authed_of ctx ≡ true
      → (eoa : Bytes) × (ctx.eoa ≡ some eoa) × IsOwned past (history_of x r admin_secret past) eoa
  authed-IsOwned admin_secret past n q hs ctx counts reads_back prints p a =
      let proven =
        serve_http_sound x admin_secret n q hs ctx (history_of x r admin_secret past) p a in
      let stored = counts _ _ proven.count _ proven.counted proven.found in
      (
        x.hex_to_address proven.eoa_part,
        proven.eoa ∙ ap some (reads_back proven.eoa_part),
        Stored-IsOwned reads_back prints proven.eoa_part past _ _ _
            (history_of-Justified x r admin_secret past) same stored,
      )
