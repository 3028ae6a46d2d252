-- ===== src/Server/Auth/Admin.antt =====
-- Who counts as the administrator.
use accounts_superposition_s.Prelude.{
  ℕ, ◌≡◌, ◌≢◌, refl, Bytes, String, List, [], ◌∷◌, Bool, true, some, bytes_eq, bytes_eq_iff,
  Bool-cases, inl, inr, arith,
}
use accounts_superposition_s.Outcome.{ok}
use accounts_superposition_s.Exec.{pure, ◌>>=◌}
use accounts_superposition_s.World.{History, Externals}
use accounts_superposition_s.Graph.Resolver.{Context}
use accounts_superposition_s.Server.Auth.{Request, serve, authorize, serve_http}
use accounts_superposition_s.Server.Auth.Sound.{continue-serve, check_bearer_sound}

module _ (x : Externals) (admin_secret : Bytes) (n : ℕ) where
  authorize_admin :
      (bearer : Bytes) (ctx : Context) (h : History) (b : Bool)
      → (authorize x admin_secret n bearer h).0 ≡ ok (serve ctx)
      → ctx.is_admin ≡ some b
      → (b ≡ true) × (bearer ≡ admin_secret) × (bearer ≢ [])
  unfolding authorize pure
  authorize_admin [] ctx h b p a = absurd (ground arith)
  authorize_admin (c ∷ bearer) ctx h b p a =
      elim (Bool-cases (bytes_eq (c ∷ bearer) admin_secret)) [
        | inl e ↦
            let same = (bytes_eq_iff (c ∷ bearer) admin_secret).0 e in
            (ground (arith, bytes_eq_iff admin_secret []), same, λ q. cc)
        | inr e ↦
            let proven = check_bearer_sound x n (c ∷ bearer) _ ctx h refl (rw e at p) in
            absurd (cc (proven.not_admin, a))
      ]

  -- A context that says anything about "is admin" says yes, and the header was the administrator's
  -- secret, which was not empty.
  pub serve_http_admin :
      (r : Request) (hs : List (String × Bytes)) (ctx : Context) (h : History) (b : Bool)
      → (serve_http x admin_secret n r h).0 ≡ ok (hs, serve ctx)
      → ctx.is_admin ≡ some b
      → (b ≡ true) × (r.authorization ≡ admin_secret) × (r.authorization ≢ [])
  unfolding serve_http ◌>>=◌
  serve_http_admin r hs ctx h b p a = elim (Bool-cases r.is_options) [
    | inl e ↦ absurd (ground arith)
    | inr e ↦
        let action = authorize x admin_secret n r.authorization h in
        authorize_admin r.authorization ctx h b
          (continue-serve action.0 _ hs ctx action.1 (rw e at p)) a
  ]
