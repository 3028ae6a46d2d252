-- ===== src/Server/Auth.antt =====
-- `authMiddleware.ServeHTTP`: what is answered, or with which context the GraphQL server runs.
pub mod Sound
pub mod Admin
use accounts_superposition_s.Prelude.{
  ℕ, Bytes, String, codes, List, [], ◌∷◌, Bool, true, not, none, some, ◌==◌, bytes_eq,
  if◌then◌else◌,
}
use accounts_superposition_s.Outcome.{note, ◌◂◌, Outcome, ok, err, panic, fatal}
use accounts_superposition_s.Exec.{Exec, pure, exit, on_error, ◌>>=◌}
use accounts_superposition_s.Go.{split_on, to_lower, hex_decode_string}
use accounts_superposition_s.World.{Event, count_secrets, Externals}
use accounts_superposition_s.Client.{call}
use accounts_superposition_s.Graph.Resolver.{Context}

-- The parts of the request that are read; a missing header is the empty text.
pub record Request : Type 0 where
  pub origin : Bytes
  pub is_options : Bool
  pub authorization : Bytes

pub data Action : Type 0 where
  -- a status, and whether the body says "unauthorised"
  respond : ℕ → Bool → Action
  -- `srv.ServeHTTP` with this context
  serve : Context → Action

abbrev pub empty_context : Context
empty_context = record { snowflake = none; is_admin = none; authed = none; eoa = none }

unfoldable pub cors_headers : Bytes → List (String × Bytes)
cors_headers [] = []
cors_headers (c ∷ origin) =
    ("Access-Control-Allow-Origin", c ∷ origin)
    ∷ ("Access-Control-Allow-Headers", codes "*")
    ∷ ("Access-Control-Allow-Methods", codes "*")
    ∷ ("Access-Control-Allow-Credentials", codes "true")
    ∷ ("Access-Control-Max-Age", codes "86400")
    ∷ ("Access-Control-Expose-Headers", codes "*")
    ∷ []

abbrev pub bad_request : Action
bad_request = respond 400 Bool.false

-- `_, err := hex.DecodeString(s)`; only the error is read
abbrev pub decodes : Outcome Bytes → Bool
decodes (ok b) = true
decodes (err e) = Bool.false
decodes panic = Bool.false
decodes (fatal e) = Bool.false

module _ (x : Externals) where
  -- The look-up of the secret, once the header's two parts are well formed.
  unfoldable pub check_secret : ℕ → Bytes → Bytes → Exec Event Action
  check_secret snowflake eoa_part secret_part =
      let eoa_preferred = to_lower (x.address_string (x.hex_to_address eoa_part)) in
      let query = count_secrets eoa_preferred (to_lower secret_part) in
      do
        count ←
            on_error (call query (x.count_row query))
              (λ e. exit (note "error scanning secrets, snowflake: " ◂ e))
        pure (
            if count == 0
            then respond 401 true
            else serve (record empty_context {
              snowflake = some snowflake;
              authed = some true;
              eoa = some (x.hex_to_address eoa_preferred);
            }))

  -- the `default` case
  unfoldable pub check_bearer : ℕ → List Bytes → Exec Event Action
  unfolding check_secret
  check_bearer snowflake (eoa_part ∷ secret_part ∷ []) =
      if not (x.is_hex_address eoa_part)
      then pure bad_request
      else if not (decodes (hex_decode_string secret_part))
      then pure bad_request
      else check_secret snowflake eoa_part secret_part
  check_bearer snowflake parts = pure bad_request

  -- `switch bearer`: the empty header, the admin's secret, `<address>:<secret>`
  unfoldable pub authorize : Bytes → ℕ → Bytes → Exec Event Action
  unfolding check_bearer
  authorize admin_secret snowflake [] = pure (serve empty_context)
  authorize admin_secret snowflake (c ∷ bearer) =
      if bytes_eq (c ∷ bearer) admin_secret
      then pure (serve (record empty_context { is_admin = some (not (bytes_eq admin_secret [])) }))
      else check_bearer snowflake (split_on b':' (c ∷ bearer))

  -- The headers that are set, and the action.
  unfoldable pub serve_http : Bytes → ℕ → Request → Exec Event (List (String × Bytes) × Action)
  unfolding authorize cors_headers
  serve_http admin_secret snowflake r =
      if r.is_options then pure (cors_headers r.origin, respond 204 Bool.false) else do
        action ← authorize admin_secret snowflake r.authorization
        pure (cors_headers r.origin, action)
