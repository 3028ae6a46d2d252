-- ===== src/Database/Owners.antt =====
-- What the schema's database gives for the middleware and the requests before.
use accounts_superposition_s.Prelude.{◌≡◌, ℕ, true, Bytes, String, List, some}
use accounts_superposition_s.Outcome.{ok}
use accounts_superposition_s.World.{Externals}
use accounts_superposition_s.Graph.Resolver.{Config, Context, authed_of}
use accounts_superposition_s.Server.Auth.{Request, serve, serve_http}
use accounts_superposition_s.System.Requests.{Arrival, history_of}
use accounts_superposition_s.System.Owners.{ReadsBack, PrintsTrimmed, IsOwned, authed-IsOwned}
use accounts_superposition_s.Database.{Database, connected}
use accounts_superposition_s.Database.Counted.{NoSecrets, connected-CountsStored}

module _ (x : Externals) (d : Database) (r : Config) where
  -- On the database of the schema, from no secrets but NULL, and whatever requests came in before: a
  -- request that the middleware lets through as authenticated acts for an address whose account one
  -- of the earlier requests asked for and a transaction accepted in their history opened, or for which
  -- one of them carried a signature, of the service's key and a nonce, that recovers the address. An
  -- address printed and read back in lower case is the same, and printed without blanks at its end.
  pub connected-authed-IsOwned :
      (admin_secret : Bytes) (past : List Arrival) (n : ℕ) (q : Request)
      (hs : List (String × Bytes)) (ctx : Context)
      → NoSecrets d.start
      → ReadsBack x
      → PrintsTrimmed x
      → (serve_http
          (connected d x)
          admin_secret
          n
          q
          (history_of (connected d x) r admin_secret past)).0
        ≡ ok (hs, serve ctx)
      → authed_of ctx ≡ true
      → (eoa : Bytes) × (ctx.eoa ≡ some eoa)
        × IsOwned (connected d x) r past (history_of (connected d x) r admin_secret past) eoa
  connected-authed-IsOwned admin_secret past n q hs ctx empty reads_back prints =
      authed-IsOwned (connected d x) r admin_secret past n q hs ctx
        (connected-CountsStored x d empty) reads_back prints
