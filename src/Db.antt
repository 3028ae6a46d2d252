-- ===== src/Db.antt =====
-- lib/db/db.go: the key that sends the next transaction, and its address.
use accounts_superposition_s.Prelude.{Bytes, Option, none, some}
use accounts_superposition_s.Outcome.{note}
use accounts_superposition_s.Exec.{Exec, pure, raise, lift, ask, wrap, ◌>>=◌}
use accounts_superposition_s.World.{Event, get_private_key, outcome, Externals}

-- `sql.ErrNoRows`
unfoldable pub some_row : Option Bytes → Exec Event Bytes
some_row none = raise (note "no rows")
some_row (some s) = pure s

module _ (x : Externals) where
  unfoldable pub pick_private_key : Exec Event (Bytes × Bytes)
  unfolding some_row
  pick_private_key = do
    r ← ask get_private_key x.private_key_row
    row ← wrap "calling function: " (lift (outcome r))
    s ← some_row row
    key ← wrap "hex to ecdsa: " (lift (outcome (x.hex_to_ecdsa s)))
    pure (key, x.pubkey_to_address (x.public_key key))
