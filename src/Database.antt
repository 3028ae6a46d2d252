-- ===== src/Database.antt =====
-- src/db/db/schema.sql: the tables that the server's queries read and write, as a state that the
-- events of a history change.
pub mod Statements
pub mod Unique
pub mod Counted
pub mod Kept
pub mod Login
pub mod Owners
use accounts_superposition_s.Prelude.{
  ℕ, suc, ◌+◌, ◌^◌, ◌<◌, Bytes, codes, String, List, [], ◌∷◌, Bool, true, false, ◌&&◌, bytes_eq,
  length, ltb, leb, ◌==◌, if◌then◌else◌, Option, none, some, ℤ, pos, negsuc,
}
use accounts_superposition_s.World.{
  Event, insert_secret, insert_nonce_secret, insert_transaction, count_created, count_secrets,
  Reply, answer, failed, History, Externals,
}

-- A `character(n)` is padded with blanks, which comparisons ignore: it is kept without them.
unfoldable pub trim_right : Bytes → Bytes
trim_right [] = []
trim_right (c ∷ s) =
    let rest = trim_right s in if c == b' ' && length rest == 0 then [] else c ∷ rest

abbrev pub next : {A B : Type 0} → Reply A → (A → Reply B) → Reply B
next (answer a) f = f a
next (failed e) f = failed e

-- A text, of one byte for each character, as a `character(n)`: too long a text is an error.
unfoldable pub character : ℕ → Bytes → Reply Bytes
unfolding trim_right
character n s =
    if ltb n (length (trim_right s))
    then failed (codes "pq: value too long for type character")
    else answer (trim_right s)

-- a row of accounts_secrets_2, whose secret may be NULL, and one of accounts_secrets_nonces_2
abbrev pub Secret : Type 0
Secret = Bytes × Option Bytes

abbrev pub Nonce : Type 0
Nonce = Bytes × ℤ

-- a row of accounts_executed_transactions_2
pub record Transaction : Type 0 where
  pub eoa_addr : Bytes
  pub transaction_hash : Bytes
  pub gas_limit : ℕ
  pub desc : String

-- The rows, the newest first, without their numbers and times. Of accounts_secrets_1, which is no
-- longer written, the addresses.
pub record Tables : Type 0 where
  pub old_secrets : List Bytes
  pub secrets : List Secret
  pub nonces : List Nonce
  pub transactions : List Transaction

unfoldable pub int_eq : ℤ → ℤ → Bool
int_eq (pos m) (pos n) = m == n
int_eq (pos m) (negsuc n) = false
int_eq (negsuc m) (pos n) = false
int_eq (negsuc m) (negsuc n) = m == n

-- `INSERT INTO accounts_secrets_2 (eoa_addr, secret)`
unfoldable pub add_secret : Bytes → Bytes → Tables → Reply Tables
unfolding character
add_secret eoa_addr secret db =
    next (character 42 eoa_addr)
      λ t. next (character 64 secret) λ s. answer (record db { secrets = (t, some s) ∷ db.secrets })

-- A row with the address and the nonce is there.
unfoldable pub has_nonce : List Nonce → Bytes → ℤ → Bool
unfolding int_eq
has_nonce [] t n = false
has_nonce ((t', n') ∷ rows) t n =
    let rest = has_nonce rows t n in if bytes_eq t' t && int_eq n' n then true else rest

-- `INSERT INTO accounts_secrets_nonces_2(eoa_addr, nonce)`, with its unique index
unfoldable pub add_nonce : Bytes → ℤ → Tables → Reply Tables
unfolding character has_nonce
add_nonce eoa_addr nonce db = next (character 42 eoa_addr) λ t.
    if has_nonce db.nonces t nonce
    then failed (codes "pq: duplicate key value violates unique constraint")
    else answer (record db { nonces = (t, nonce) ∷ db.nonces })

-- Both insertions, or none.
unfoldable pub accounts_insert_nonce_secret_3 : Bytes → Bytes → ℤ → Tables → Reply Tables
unfolding add_nonce add_secret
accounts_insert_nonce_secret_3 eoa_addr secret nonce db =
    next (add_nonce eoa_addr nonce db) (add_secret eoa_addr secret)

-- `INSERT INTO accounts_executed_transactions_2`, whose gas limit is an int32
unfoldable pub add_transaction : Bytes → Bytes → ℕ → String → Tables → Reply Tables
unfolding character
add_transaction eoa_addr hash gas desc db = next (character 42 eoa_addr) λ t.
    next (character 66 hash) λ h.
      if leb (2 ^ 31) gas
      then failed (codes "pq: value out of range for type integer")
      else answer (record db {
        transactions =
            record { eoa_addr = t; transaction_hash = h; gas_limit = gas; desc = desc }
            ∷ db.transactions;
      })

-- One statement of the server.
unfoldable pub execute : Event → Tables → Reply Tables
unfolding add_secret accounts_insert_nonce_secret_3 add_transaction
execute (insert_secret t s) db = add_secret t s db
execute (insert_nonce_secret t s n) db = accounts_insert_nonce_secret_3 t s n db
execute (insert_transaction t h gas desc) db = add_transaction t h gas desc db
execute _ db = answer db

-- A statement that fails changes nothing.
abbrev pub kept : Tables → Reply Tables → Tables
kept db (answer db') = db'
kept db (failed e) = db

abbrev pub done : Reply Tables → Reply (Unit {0})
done (answer db) = answer tt
done (failed e) = failed e

-- `secret = $2`, which does not hold of NULL
unfoldable pub same_secret : Option Bytes → Bytes → Bool
unfolding trim_right
same_secret none s = false
same_secret (some s') s = bytes_eq s' (trim_right s)

-- `SELECT COUNT(1) … WHERE eoa_addr = $1 AND secret = $2`
unfoldable pub count_pairs : Bytes → Bytes → List Secret → ℕ
unfolding trim_right same_secret
count_pairs t s [] = 0
count_pairs t s ((t', s') ∷ rows) =
    let rest = count_pairs t s rows in
    if bytes_eq t' (trim_right t) && same_secret s' s then suc rest else rest

-- `SELECT eoa_addr … WHERE eoa_addr = $1`, in the new table and in the old one
unfoldable pub count_addresses : Bytes → List Secret → ℕ
unfolding trim_right
count_addresses t [] = 0
count_addresses t ((t', s') ∷ rows) =
    let rest = count_addresses t rows in if bytes_eq t' (trim_right t) then suc rest else rest

unfoldable pub count_old : Bytes → List Bytes → ℕ
unfolding trim_right
count_old t [] = 0
count_old t (t' ∷ rows) =
    let rest = count_old t rows in
    if bytes_eq (trim_right t') (trim_right t) then suc rest else rest

unfoldable pub count_rows : Event → Tables → ℕ
unfolding count_pairs count_addresses count_old
count_rows (count_secrets t s) db = count_pairs t s db.secrets
count_rows (count_created t) db = count_old t db.old_secrets + count_addresses t db.secrets
count_rows _ db = 0

-- The database that the server is connected to: its rows at the start, and when it is up. A
-- statement that does not reach it fails and changes nothing.
pub record Database : Type 0 where
  pub start : Tables
  pub up : Event → History → Bool

module _ (d : Database) where
  abbrev pub attempt : Event → History → Tables → Reply Tables
  attempt e h db = if d.up e h then execute e db else failed (codes "connection refused")

  unfoldable pub tables_of : History → Tables
  unfolding execute
  tables_of [] = d.start
  tables_of (e ∷ h) = let db = tables_of h in kept db (attempt e h db)

  unfoldable pub exec_on : Event → History → Reply (Unit {0})
  unfolding tables_of execute
  exec_on e h = done (attempt e h (tables_of h))

  unfoldable pub count_on : Event → History → Reply ℕ
  unfolding tables_of count_rows
  count_on e h =
      if d.up e h then answer (count_rows e (tables_of h)) else failed (codes "connection refused")

  -- The outside with this database.
  abbrev pub connected : Externals → Externals
  connected x = record x { exec_result = exec_on; count_row = count_on }
