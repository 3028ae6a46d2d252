-- ===== src/Tests/Middleware.antt =====
-- The middleware on one request, and the limiter.
use accounts_superposition_s.Prelude.{
  ◌≡◌, ◌≢◌, refl, Bytes, codes, [], ◌++◌, true, false, some, bytes_eq, List, replicate,
}
use accounts_superposition_s.Outcome.{ok}
use accounts_superposition_s.Exec.{pure, exit, ask, lift, on_error, ◌>>=◌}
use accounts_superposition_s.Go.{
  split_on, to_lower, lower, hex_decode_string, decode_pair, hex_value,
}
use accounts_superposition_s.Client.{call}
use accounts_superposition_s.Graph.Resolver.{Context}
use accounts_superposition_s.Server.Auth.{
  Request, serve, empty_context, cors_headers, check_secret, check_bearer, authorize, serve_http,
}
use accounts_superposition_s.Server.Auth.Sound.{IsProven, serve_http_sound}
use accounts_superposition_s.Server.Auth.Admin.{serve_http_admin}
use accounts_superposition_s.Ratelimit.{Req, init}
use accounts_superposition_s.Ratelimit
use accounts_superposition_s.Ratelimit.Window.{expected, serve-expected}
use accounts_superposition_s.Tests.Fixture.{user, node, user_text, known_user}

abbrev from_site : Bytes → Request
from_site a = record { origin = codes "https://site"; is_options = false; authorization = a }

abbrev user_request : Request
user_request = from_site (user_text ++ codes ":ab")

user_served :
    (serve_http node (codes "admin") 1 user_request []).0
    ≡ ok (cors_headers (codes "https://site"), serve known_user)
unfolding serve_http authorize check_bearer check_secret call pure exit ask lift on_error ◌>>=◌
    split_on to_lower lower hex_decode_string decode_pair hex_value cors_headers bytes_eq
user_served = refl

serve_http_sound_example : IsProven node [] user_request.authorization known_user
serve_http_sound_example =
    serve_http_sound node (codes "admin") 1 user_request (cors_headers (codes "https://site"))
      known_user [] user_served refl

abbrev admin_context : Context
admin_context = record empty_context { is_admin = some true }

admin_served :
    (serve_http node (codes "admin") 1 (from_site (codes "admin")) []).0
    ≡ ok (cors_headers (codes "https://site"), serve admin_context)
unfolding serve_http authorize pure ◌>>=◌ bytes_eq
admin_served = refl

serve_http_admin_example : (true ≡ true) × (codes "admin" ≡ codes "admin") × (codes "admin" ≢ [])
serve_http_admin_example =
    serve_http_admin node (codes "admin") 1 (from_site (codes "admin"))
      (cors_headers (codes "https://site")) admin_context [] true admin_served refl

-- six requests of one user at one time
abbrev burst : List Req
burst = replicate 6 (record { id = user; now = 1000 })

serve-expected_example : Ratelimit.serve init burst ≡ expected [] burst
serve-expected_example = serve-expected burst
