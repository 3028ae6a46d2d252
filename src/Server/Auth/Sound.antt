-- ===== src/Server/Auth/Sound.antt =====
-- Which contexts the middleware hands to the GraphQL server.
use accounts_superposition_s.Prelude.{
  ℕ, ◌≡◌, ◌≢◌, refl, Bytes, String, List, [], ◌∷◌, Bool, true, false, not, if◌then◌else◌, none,
  some, bytes_eq, Bool-cases, inl, inr, arith,
}
use accounts_superposition_s.Outcome.{Outcome, ok, err, panic, fatal}
use accounts_superposition_s.Exec.{Exec, pure, ◌>>=◌, continue, on_error}
use accounts_superposition_s.Go.{split_on, to_lower, hex_decode_string}
use accounts_superposition_s.World.{Event, count_secrets, Reply, answer, failed, History, Externals}
use accounts_superposition_s.Client.{call}
use accounts_superposition_s.Graph.Resolver.{Context, authed_of}
use accounts_superposition_s.Server.Auth.{
  Request, Action, serve, decodes, bad_request, check_secret, check_bearer, authorize, serve_http,
}

-- Behind the headers, the action is what `authorize` gave.
pub continue-serve :
    (r : Outcome Action) (headers hs : List (String × Bytes)) (ctx : Context) (h : History)
    → (continue {B = List (String × Bytes) × Action} r (λ action. pure (headers, action)) h).0
      ≡ ok (hs, serve ctx)
    → r ≡ ok (serve ctx)
unfolding pure
continue-serve (ok a) headers hs ctx h p = ground arith
continue-serve (err e) headers hs ctx h p = cc
continue-serve panic headers hs ctx h p = cc
continue-serve (fatal e) headers hs ctx h p = cc

-- The query that `check_secret` makes.
abbrev pub query : Externals → Bytes → Bytes → Event
query x eoa_part secret_part =
    count_secrets (to_lower (x.address_string (x.hex_to_address eoa_part))) (to_lower secret_part)

-- The header was `<address>:<secret>`, the database counted the pair, and the context names the
-- address.
pub record IsProven (x : Externals) (h : History) (bearer : Bytes) (ctx : Context) : Type 0 where
  pub eoa_part : Bytes
  pub secret_part : Bytes
  pub parts : split_on b':' bearer ≡ eoa_part ∷ secret_part ∷ []
  pub address : x.is_hex_address eoa_part ≡ true
  pub decoded : decodes (hex_decode_string secret_part) ≡ true
  pub count : ℕ
  pub counted : x.count_row (query x eoa_part secret_part) h ≡ answer count
  pub found : count ≢ 0
  pub eoa :
      ctx.eoa ≡ some (x.hex_to_address (to_lower (x.address_string (x.hex_to_address eoa_part))))
  pub not_admin : ctx.is_admin ≡ none

module _ (x : Externals) where
  check_secret_sound :
      (n : ℕ) (e s : Bytes) (ctx : Context) (h : History)
      → (check_secret x n e s h).0 ≡ ok (serve ctx)
      → (count : ℕ) × (x.count_row (query x e s) h ≡ answer count)
        × (count ≢ 0)
        × (ctx.eoa ≡ some (x.hex_to_address (to_lower (x.address_string (x.hex_to_address e)))))
        × (ctx.is_admin ≡ none)
  unfolding check_secret call on_error ◌>>=◌
  check_secret_sound n e s ctx h p = go (x.count_row (query x e s) h) refl
    where
      go :
          (r : Reply ℕ)
          → x.count_row (query x e s) h ≡ r
          → (count : ℕ) × (x.count_row (query x e s) h ≡ answer count)
            × (count ≢ 0)
            × (ctx.eoa ≡ some (x.hex_to_address (to_lower (x.address_string (x.hex_to_address e)))))
            × (ctx.is_admin ≡ none)
      go (answer c) q = (c, q, ground arith, ground arith, ground arith)
      go (failed t) q = absurd (ground arith)

  pub check_bearer_sound :
      (n : ℕ) (bearer : Bytes) (parts : List Bytes) (ctx : Context) (h : History)
      → split_on b':' bearer ≡ parts
      → (check_bearer x n parts h).0 ≡ ok (serve ctx)
      → IsProven x h bearer ctx
  unfolding check_bearer pure
  check_bearer_sound n bearer [] ctx h q p = absurd (ground arith)
  check_bearer_sound n bearer (a ∷ []) ctx h q p = absurd (ground arith)
  check_bearer_sound n bearer (a ∷ b ∷ c ∷ l) ctx h q p = absurd (ground arith)
  check_bearer_sound n bearer (a ∷ b ∷ []) ctx h q p =
      let (address, rest) = refused (x.is_hex_address a) _ p in
      let (decoded, rest') = refused (decodes (hex_decode_string b)) _ rest in
      let (count, counted, found, eoa, not_admin) = check_secret_sound n a b ctx h rest' in
      record {
        eoa_part = a;
        secret_part = b;
        parts = q;
        address = address;
        decoded = decoded;
        count = count;
        counted = counted;
        found = found;
        eoa = eoa;
        not_admin = not_admin;
      }
    where
      refused :
          (t : Bool) (m : Exec Event Action)
          → ((if not t then pure bad_request else m) h).0 ≡ ok (serve ctx)
          → (t ≡ true) × ((m h).0 ≡ ok (serve ctx))
      refused true m r = (refl, r)
      refused false m r = absurd (cc)

  authorize_sound :
      (admin_secret : Bytes) (n : ℕ) (bearer : Bytes) (ctx : Context) (h : History)
      → (authorize x admin_secret n bearer h).0 ≡ ok (serve ctx)
      → authed_of ctx ≡ true
      → IsProven x h bearer ctx
  unfolding authorize pure
  authorize_sound admin_secret n [] ctx h p a = absurd (ground arith)
  authorize_sound admin_secret n (c ∷ bearer) ctx h p a =
      elim (Bool-cases (bytes_eq (c ∷ bearer) admin_secret)) [
        | inl e ↦ absurd (ground arith)
        | inr e ↦ check_bearer_sound n (c ∷ bearer) _ ctx h refl (rw e at p)
      ]

  -- When the middleware hands on a context in which the user counts as authenticated, the header
  -- was `<address>:<secret>`, the database counted that pair at least once, and the context's
  -- account is that address.
  pub serve_http_sound :
      (admin_secret : Bytes) (n : ℕ) (r : Request) (hs : List (String × Bytes)) (ctx : Context)
      (h : History)
      → (serve_http x admin_secret n r h).0 ≡ ok (hs, serve ctx)
      → authed_of ctx ≡ true
      → IsProven x h r.authorization ctx
  unfolding serve_http ◌>>=◌
  serve_http_sound admin_secret n r hs ctx h p a = elim (Bool-cases r.is_options) [
    | inl e ↦ absurd (ground arith)
    | inr e ↦
        authorize_sound admin_secret n r.authorization ctx h
          (continue-serve _ _ hs ctx (authorize x admin_secret n r.authorization h).1 (rw e at p)) a
  ]
