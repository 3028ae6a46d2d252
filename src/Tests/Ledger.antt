-- ===== src/Tests/Ledger.antt =====
-- An outside that is connected to the schema's database, which has one row with no
-- secret at first and is always up.
use accounts_superposition_s.Prelude.{refl, none, ◌∷◌, [], true}
use accounts_superposition_s.Go.{to_lower, lower}
use accounts_superposition_s.World.{Externals}
use accounts_superposition_s.Database.{trim_right, Tables, Database, connected}
use accounts_superposition_s.Database.Unique.{connected-UniqueNonces}
use accounts_superposition_s.System.Owners.{ReadsBack, PrintsTrimmed}
use accounts_superposition_s.System.Replay.{UniqueNonces}
use accounts_superposition_s.Tests.Fixture.{node, user_text}

abbrev pub first_rows : Tables
first_rows = record {
  old_secrets = [];
  secrets = (user_text, none) ∷ [];
  nonces = [];
  transactions = [];
}

abbrev pub database : Database
database = record { start = first_rows; up = λ e h. true }

-- A node that knows one address only.
abbrev pub printing_node : Externals
printing_node = record node { address_string = λ a. user_text }

abbrev pub ledger : Externals
ledger = connected database printing_node

pub ledger-ReadsBack : ReadsBack ledger
ledger-ReadsBack text = refl

pub ledger-PrintsTrimmed : PrintsTrimmed ledger
unfolding trim_right to_lower lower
ledger-PrintsTrimmed a = refl

pub ledger-UniqueNonces : UniqueNonces ledger
ledger-UniqueNonces = connected-UniqueNonces printing_node database
