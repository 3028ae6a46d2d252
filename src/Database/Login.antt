-- ===== src/Database/Login.antt =====
-- The secret of a new account opens the server to its holder.
use accounts_superposition_s.Prelude.{
  ℕ, ◌≡◌, ◌≢◌, refl, sym, ap, Bytes, [], ◌∷◌, ◌++◌, Bool, true, false, some, Option, bytes_eq, All,
  IsByte, ◌==◌, arith,
}
use accounts_superposition_s.Outcome.{ok}
use accounts_superposition_s.Exec.{pure, on_error, ◌>>=◌, ask, lift}
use accounts_superposition_s.Exec.Emits.{Added, same, more, Added-trans}
use accounts_superposition_s.Go.{split_on, to_lower, hex_decode_string}
use accounts_superposition_s.Go.HexLaws.{hex_decode_string-hex_encode}
use accounts_superposition_s.Go.SplitLaws.{
  Without, split_on-join, to_lower-hex_encode, hex_encode-Without,
}
use accounts_superposition_s.Model
use accounts_superposition_s.World.{count_secrets, answer, History, Externals}
use accounts_superposition_s.Client.{call}
use accounts_superposition_s.Graph.Resolver.{Config, Context, is_dryrun}
use accounts_superposition_s.Graph.Account.{create_account_exec}
use accounts_superposition_s.Server.Auth.{
  Request, serve, empty_context, cors_headers, decodes, check_secret, check_bearer, authorize,
  serve_http,
}
use accounts_superposition_s.System.Provenance.{kept_as}
use accounts_superposition_s.Database.{
  Database, tables_of, count_pairs, count_rows, count_on, connected,
}
use accounts_superposition_s.Database.Counted.{count_pairs-later, inserted-counts}
use accounts_superposition_s.Database.Kept.{create_account_exec-IsKept}

-- The random source gives bytes.
abbrev pub GivesBytes : Externals → Type 0
GivesBytes x = (n : ℕ) (h : History) (b : Bytes) → x.random_bytes n h ≡ answer b → All IsByte b

-- What the middleware hands on for the holder of an address.
abbrev pub holder : Externals → Config → ℕ → Bytes → Context
holder x r n part = record empty_context {
  snowflake = some n;
  authed = some true;
  eoa = some (x.hex_to_address (kept_as x r part));
}

abbrev pub bearing : Bytes → Bytes → Bytes → Request
bearing origin part secret = record {
  origin = origin;
  is_options = false;
  authorization = part ++ b':' ∷ secret;
}

module _ (x : Externals) (d : Database) where
  counted_later :
      (t s : Bytes) {h h' : History}
      → Added (λ _. Unit {0}) h h'
      → count_pairs t s (tables_of d h).secrets ≢ 0
      → count_pairs t s (tables_of d h').secrets ≢ 0
  counted_later t s same n = n
  counted_later t s (more {h'} e p q) n = count_pairs-later x d t s e h' (counted_later t s q n)

  counts :
      (t s : Bytes) (h : History)
      → d.up (count_secrets t s) h ≡ true
      → count_on d (count_secrets t s) h ≡ answer (count_pairs t s (tables_of d h).secrets)
  unfolding count_on count_rows
  counts t s h up = rw up refl

  nonzero : (n : ℕ) → n ≢ 0 → (n == 0) ≡ false
  nonzero n h = ground (arith)

  check_secret-serve :
      (r : Config) (n : ℕ) (part secret : Bytes) (h : History)
      → d.up (count_secrets (kept_as x r part) (to_lower secret)) h ≡ true
      → count_pairs (kept_as x r part) (to_lower secret) (tables_of d h).secrets ≢ 0
      → (check_secret (connected d x) n part secret h).0 ≡ ok (serve (holder x r n part))
  unfolding check_secret call on_error ask lift pure ◌>>=◌
  check_secret-serve r n part secret h up found =
      rw (counts (kept_as x r part) (to_lower secret) h up, nonzero _ found) refl

  check_bearer-serve :
      (r : Config) (n : ℕ) (part secret : Bytes) (h : History)
      → x.is_hex_address part ≡ true
      → decodes (hex_decode_string secret) ≡ true
      → d.up (count_secrets (kept_as x r part) (to_lower secret)) h ≡ true
      → count_pairs (kept_as x r part) (to_lower secret) (tables_of d h).secrets ≢ 0
      → (check_bearer (connected d x) n (part ∷ secret ∷ []) h).0 ≡ ok (serve (holder x r n part))
  unfolding check_bearer
  check_bearer-serve r n part secret h address decoded up found =
      rw (address, decoded) (check_secret-serve r n part secret h up found)

  authorize-serve :
      (r : Config) (admin_secret : Bytes) (n : ℕ) (bearer part secret : Bytes) (h : History)
      → bytes_eq bearer admin_secret ≡ false
      → split_on b':' bearer ≡ part ∷ secret ∷ []
      → (check_bearer (connected d x) n (part ∷ secret ∷ []) h).0 ≡ ok (serve (holder x r n part))
      → (authorize (connected d x) admin_secret n bearer h).0 ≡ ok (serve (holder x r n part))
  unfolding authorize split_on
  authorize-serve r admin_secret n [] part secret h not_admin parts p = absurd (cc (parts))
  authorize-serve r admin_secret n (c ∷ bearer) part secret h not_admin parts p =
      rw (not_admin, parts) p

  serve_http-serve :
      (admin_secret : Bytes) (n : ℕ) (q : Request) (ctx : Context) (h : History)
      → q.is_options ≡ false
      → (authorize (connected d x) admin_secret n q.authorization h).0 ≡ ok (serve ctx)
      → (serve_http (connected d x) admin_secret n q h).0 ≡ ok (cors_headers q.origin, serve ctx)
  unfolding serve_http ◌>>=◌ pure
  serve_http-serve admin_secret n q ctx h get p = rw (get, p) refl

  -- The holder of a new account is let in: after a creation that was no dry run has returned a
  -- secret, and after whatever else has happened since, a request whose header is the address, a
  -- colon and that secret is handed on as authenticated for the address. The address may be written
  -- in another way, without a colon. The header is not the administrator's secret, the random source
  -- gives bytes, and the database, which runs the schema, is up at the second request.
  pub serve_http-create_account_exec :
      (r : Config) (ctx : Context) (c : Model.CreateAccount) (mint : Option Model.Mint)
      (dryrun : Option Bool) (h later : History) (created : Model.CreateAccountExec)
      (admin_secret origin part : Bytes) (n : ℕ)
      → GivesBytes x
      → is_dryrun dryrun ≡ false
      → (create_account_exec (connected d x) r ctx c mint dryrun h).0 ≡ ok created
      → Added (λ _. Unit {0}) (create_account_exec (connected d x) r ctx c mint dryrun h).1 later
      → x.is_hex_address part ≡ true
      → x.hex_to_address part ≡ x.hex_to_address c.eoa_addr
      → Without b':' part
      → bytes_eq (part ++ b':' ∷ created.secret) admin_secret ≡ false
      → d.up (count_secrets (kept_as x r part) created.secret) later ≡ true
      → (serve_http (connected d x) admin_secret n (bearing origin part created.secret) later).0
        ≡ ok (cors_headers origin, serve (holder x r n part))
  serve_http-create_account_exec r ctx c mint dryrun h later created admin_secret origin part n
        gives wet p between address same_address no_colon not_admin up =
      let kept = create_account_exec-IsKept (connected d x) r ctx c mint dryrun h created wet p in
      let (drawn_at, drawn) = kept.drawn in
      let is_bytes = gives 32 drawn_at kept.secret drawn in
      let text : kept_as x r c.eoa_addr ≡ kept_as x r part =
        ap (λ a. to_lower (x.address_string a)) (sym same_address) in
      let shown = kept.shown_as in
      let lowered : to_lower created.secret ≡ created.secret =
        rw shown (to_lower-hex_encode kept.secret is_bytes) in
      let found : count_pairs (kept_as x r part) (to_lower created.secret)
            (tables_of d later).secrets
          ≢ 0 =
        rw (lowered, shown, ← text)
          (counted_later _ _ (Added-trans kept.later between)
            (inserted-counts x d _ _ kept.before kept.stored)) in
      serve_http-serve admin_secret n (bearing origin part created.secret) (holder x r n part) later
        refl
        (authorize-serve r admin_secret n (part ++ b':' ∷ created.secret) part created.secret later
          not_admin
          (split_on-join b':' part created.secret no_colon
            (rw shown (hex_encode-Without kept.secret is_bytes)))
          (check_bearer-serve r n part created.secret later address
            (rw (shown, hex_decode_string-hex_encode kept.secret is_bytes) refl) (rw lowered up)
            found))
