-- ===== src/System/Lookups.antt =====
-- What the queries and the middleware ask of the outside.
use accounts_superposition_s.Prelude.{ℕ, Bytes, List, [], ◌∷◌}
use accounts_superposition_s.Exec.Emits.{Emits, emits_rules}
use accounts_superposition_s.World.{
  Event, count_created, count_secrets, select_statistics, Externals,
}
use accounts_superposition_s.Client.Effects.{call-Emits}
use accounts_superposition_s.Graph.Resolver.{Config}
use accounts_superposition_s.Graph.Queries.{has_created, statistics}
use accounts_superposition_s.Server.Auth.{
  Request, check_secret, check_bearer, authorize, serve_http,
}

-- The events that look something up in the database are of the kind `P`.
pub record Lookups (P : Event → Type 0) : Type 0 where
  pub created : (t : Bytes) → P (count_created t)
  pub secrets : (t s : Bytes) → P (count_secrets t s)
  pub rows : P select_statistics

module _ {P : Event → Type 0} (x : Externals) (r : Config) (looks : Lookups P) where
  pub has_created-Emits : (address : Bytes) → Emits P (has_created x r address)
  unfolding has_created
  has_created-Emits address = search (emits_rules, call-Emits, looks.created) depth 12

  pub statistics-Emits : Emits P (statistics x r)
  unfolding statistics
  statistics-Emits = search (emits_rules, call-Emits, looks.rows) depth 12

  check_secret-Emits : (n : ℕ) (eoa secret : Bytes) → Emits P (check_secret x n eoa secret)
  unfolding check_secret
  check_secret-Emits n eoa secret = search (emits_rules, call-Emits, looks.secrets) depth 12

  check_bearer-Emits : (n : ℕ) (parts : List Bytes) → Emits P (check_bearer x n parts)
  unfolding check_bearer
  check_bearer-Emits n [] = search emits_rules
  check_bearer-Emits n (a ∷ []) = search emits_rules
  check_bearer-Emits n (a ∷ b ∷ []) = search (emits_rules, check_secret-Emits) depth 12
  check_bearer-Emits n (a ∷ b ∷ c ∷ l) = search emits_rules

  authorize-Emits :
      (admin_secret : Bytes) (n : ℕ) (bearer : Bytes) → Emits P (authorize x admin_secret n bearer)
  unfolding authorize
  authorize-Emits admin_secret n [] = search emits_rules
  authorize-Emits admin_secret n (c ∷ bearer) = search (emits_rules, check_bearer-Emits) depth 12

  pub serve_http-Emits :
      (admin_secret : Bytes) (n : ℕ) (q : Request) → Emits P (serve_http x admin_secret n q)
  unfolding serve_http
  serve_http-Emits admin_secret n q = search (emits_rules, authorize-Emits) depth 12
