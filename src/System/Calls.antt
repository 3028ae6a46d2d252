-- ===== src/System/Calls.antt =====
-- How often a request asks the outside.
use accounts_superposition_s.Prelude.{
  ℕ, suc, ◌+◌, ◌*◌, ◌≤◌, not, bytes_eq, Bytes, List, [], ◌∷◌, Bool, true, false, length,
  if◌then◌else◌, arith,
}
use accounts_superposition_s.Outcome.{Outcome, ok, err, panic, fatal}
use accounts_superposition_s.Exec.Emits.{Emits-pure, Emits-raise, Emits-exit, Emits-lift}
use accounts_superposition_s.Exec.Bounded.{
  Bounded, Bounded-silent, Bounded-if, Bounded-last, Bounded-on_error, Bounded-wrap,
}
use accounts_superposition_s.World.{History, Externals}
use accounts_superposition_s.Go.{split_on, hex_decode_string}
use accounts_superposition_s.Graph.Resolver.{Config, Context}
use accounts_superposition_s.Graph.Queries.{has_created, statistics}
use accounts_superposition_s.Client.Calls.{call-Bounded}
use accounts_superposition_s.Graph.Calls.{
  ninelives_mint-Bounded, claim_rewards-Bounded, create_account_exec-Bounded,
  request_secret-Bounded,
}
use accounts_superposition_s.Server.Auth.{
  Request, Action, decodes, respond, serve, check_secret, check_bearer, authorize, serve_http,
}
use accounts_superposition_s.System.Requests.{
  Field, creates, requests, mints, claims, asks_publickey, asks_eoa, asks_created, asks_statistics,
  Arrival, resolve, resolve_all, continue_with, handle,
}

stop_or_go :
    (go : Bool) (h h₁ h₂ : History) (n : ℕ)
    → length h₁ ≤ length h + 11
    → length h₂ ≤ length h₁ + 11 * n
    → length (if go then h₂ else h₁) ≤ length h + 11 * suc n
stop_or_go true h h₁ h₂ n p q = omega arith
stop_or_go false h h₁ h₂ n p q = omega arith

module _ (x : Externals) (r : Config) where
  has_created-Bounded : (address : Bytes) → Bounded 1 (has_created x r address)
  unfolding has_created
  has_created-Bounded address =
      Bounded-last 1 _ _ (Bounded-wrap 1 _ _ (call-Bounded _ _)) (λ _. Emits-pure _)

  statistics-Bounded : Bounded 1 (statistics x r)
  unfolding statistics
  statistics-Bounded =
      Bounded-last 1 _ _
        (Bounded-on_error 1 0 _ _ (call-Bounded _ _) (λ _. Bounded-silent 0 _ (Emits-raise _)))
        (λ _. Emits-lift _)

  check_secret-Bounded : (n : ℕ) (eoa secret : Bytes) → Bounded 1 (check_secret x n eoa secret)
  unfolding check_secret
  check_secret-Bounded n eoa secret =
      Bounded-last 1 _ _
        (Bounded-on_error 1 0 _ _ (call-Bounded _ _) (λ _. Bounded-silent 0 _ (Emits-exit _)))
        (λ _. Emits-pure _)

  check_bearer-Bounded : (n : ℕ) (parts : List Bytes) → Bounded 1 (check_bearer x n parts)
  unfolding check_bearer
  check_bearer-Bounded n [] = Bounded-silent 1 _ (Emits-pure _)
  check_bearer-Bounded n (a ∷ []) = Bounded-silent 1 _ (Emits-pure _)
  check_bearer-Bounded n (a ∷ b ∷ []) =
      Bounded-if 1 (not (x.is_hex_address a)) _ _ (Bounded-silent 1 _ (Emits-pure _)) (
        Bounded-if 1 (not (decodes (hex_decode_string b))) _ _ (Bounded-silent 1 _ (Emits-pure _))
          (check_secret-Bounded n a b))
  check_bearer-Bounded n (a ∷ b ∷ c ∷ l) = Bounded-silent 1 _ (Emits-pure _)

  authorize-Bounded :
      (admin_secret : Bytes) (n : ℕ) (bearer : Bytes)
      → Bounded 1 (authorize x admin_secret n bearer)
  unfolding authorize
  authorize-Bounded admin_secret n [] = Bounded-silent 1 _ (Emits-pure _)
  authorize-Bounded admin_secret n (c ∷ bearer) =
      Bounded-if 1 (bytes_eq (c ∷ bearer) admin_secret) _ _ (Bounded-silent 1 _ (Emits-pure _))
        (check_bearer-Bounded n (split_on b':' (c ∷ bearer)))

  serve_http-Bounded :
      (admin_secret : Bytes) (n : ℕ) (q : Request) → Bounded 1 (serve_http x admin_secret n q)
  unfolding serve_http
  serve_http-Bounded admin_secret n q =
      Bounded-if 1 q.is_options _ _ (Bounded-silent 1 _ (Emits-pure _))
        (Bounded-last 1 _ _ (authorize-Bounded admin_secret n q.authorization) (λ _. Emits-pure _))

  resolve-length :
      (ctx : Context) (f : Field) (h : History) → length (resolve x r ctx f h).1 ≤ length h + 11
  unfolding resolve
  resolve-length ctx (creates c mint dryrun) h =
      (create_account_exec-Bounded x r ctx c mint dryrun).at h
  resolve-length ctx (requests eoa nonce v sr ss dryrun) h =
      omega (arith, (request_secret-Bounded x r ctx eoa nonce v sr ss dryrun).at h)
  resolve-length ctx (mints mint dryrun) h = (ninelives_mint-Bounded x r ctx mint dryrun).at h
  resolve-length ctx (claims markets ms_ts dryrun) h =
      omega (arith, (claim_rewards-Bounded x r ctx markets ms_ts dryrun).at h)
  resolve-length ctx asks_publickey h = omega arith
  resolve-length ctx (asks_eoa address) h = omega arith
  resolve-length ctx (asks_created address) h = omega (arith, (has_created-Bounded address).at h)
  resolve-length ctx asks_statistics h = omega (arith, statistics-Bounded.at h)

  resolve_all-length :
      (ctx : Context) (fs : List Field) (h : History)
      → length (resolve_all x r ctx fs h) ≤ length h + 11 * length fs
  unfolding resolve_all
  resolve_all-length ctx [] h = omega arith
  resolve_all-length ctx (f ∷ fs) h =
      let h₁ = (resolve x r ctx f h).1 in
      stop_or_go (resolve x r ctx f h).0 h h₁ (resolve_all x r ctx fs h₁) (length fs)
        (resolve-length ctx f h) (resolve_all-length ctx fs h₁)

  continue_with-length :
      {H : Type 0} (fields : List Field) (o : Outcome (H × Action)) (h : History)
      → length (continue_with x r fields o h) ≤ length h + 11 * length fields
  continue_with-length fields (ok (headers, serve ctx)) h = resolve_all-length ctx fields h
  continue_with-length fields (ok (headers, respond status told)) h = omega arith
  continue_with-length fields (err e) h = omega arith
  continue_with-length fields panic h = omega arith
  continue_with-length fields (fatal e) h = omega arith

  -- Whatever the outside answers, and on every path, the handling of a request ends after a bounded
  -- number of calls: at most one before the fields are resolved, and at most eleven for each field.
  pub handle-length :
      (admin_secret : Bytes) (a : Arrival) (h : History)
      → length (handle x r admin_secret a h) ≤ length h + 1 + 11 * length a.fields
  unfolding handle
  handle-length admin_secret a h = omega (
    arith,
    (serve_http-Bounded admin_secret a.snowflake a.request).at h,
    continue_with-length a.fields (serve_http x admin_secret a.snowflake a.request h).0
        (serve_http x admin_secret a.snowflake a.request h).1,
  )
