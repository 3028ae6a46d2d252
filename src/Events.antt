-- ===== src/Events.antt =====
-- Kinds of events: what changes something outside.
use accounts_superposition_s.Prelude.{ℕ, ◌≡◌, Bytes, refl, Bool, true, false}
use accounts_superposition_s.World.{
  Event, run_signer, estimate_gas, header_by_number, suggest_gas_tip_cap, pending_nonce_at,
  call_contract, send_transaction, code_at, get_private_key, insert_secret, insert_nonce_secret,
  insert_transaction, http_post, rand_read, CallMsg,
}
use accounts_superposition_s.Exec.Once.{Not}

-- a transaction goes out
abbrev pub is_send : Event → Bool
is_send (send_transaction t) = true
is_send _ = false

-- a secret is handed to the database
abbrev pub is_secret : Event → Bool
is_secret (insert_secret eoa secret) = true
is_secret (insert_nonce_secret eoa secret nonce) = true
is_secret _ = false

-- the chain or the database is changed; the choice of a key updates when the key was last used
abbrev pub is_write : Event → Bool
is_write (send_transaction t) = true
is_write (insert_secret eoa secret) = true
is_write (insert_nonce_secret eoa secret nonce) = true
is_write (insert_transaction eoa hash gas desc) = true
is_write get_private_key = true
is_write _ = false

-- The events that read the chain, the signer and the keys, or raise the alarm, are of the kind `P`.
pub record Reads (P : Event → Type 0) : Type 0 where
  pub signer : (prog d : Bytes) → P (run_signer prog d)
  pub estimate : (m : CallMsg) → P (estimate_gas m)
  pub header : P header_by_number
  pub tip : P suggest_gas_tip_cap
  pub nonce : (a : Bytes) → P (pending_nonce_at a)
  pub simulate : (m : CallMsg) → P (call_contract m)
  pub code : (a : Bytes) → P (code_at a)
  pub key : P get_private_key
  pub post : (url : Bytes) (n : ℕ) (t : Bytes) → P (http_post url n t)
  pub random : (n : ℕ) → P (rand_read n)

-- The event changes nothing, or is the choice of a key.
pub data ChangesAtMostKey (e : Event) : Type 0 where
  unchanged : is_write e ≡ false → ChangesAtMostKey e
  picked : e ≡ get_private_key → ChangesAtMostKey e

pub Reads-ChangesAtMostKey : Reads ChangesAtMostKey
Reads-ChangesAtMostKey = record {
  signer = λ _ _. unchanged refl;
  estimate = λ _. unchanged refl;
  header = unchanged refl;
  tip = unchanged refl;
  nonce = λ _. unchanged refl;
  simulate = λ _. unchanged refl;
  code = λ _. unchanged refl;
  key = picked refl;
  post = λ _ _ _. unchanged refl;
  random = λ _. unchanged refl;
}

pub Reads-send : Reads (Not is_send)
Reads-send = record {
  signer = λ _ _. refl;
  estimate = λ _. refl;
  header = refl;
  tip = refl;
  nonce = λ _. refl;
  simulate = λ _. refl;
  code = λ _. refl;
  key = refl;
  post = λ _ _ _. refl;
  random = λ _. refl;
}

pub Reads-secret : Reads (Not is_secret)
Reads-secret = record {
  signer = λ _ _. refl;
  estimate = λ _. refl;
  header = refl;
  tip = refl;
  nonce = λ _. refl;
  simulate = λ _. refl;
  code = λ _. refl;
  key = refl;
  post = λ _ _ _. refl;
  random = λ _. refl;
}

-- any event
abbrev pub Any : Event → Type 0
Any e = Unit

pub Reads-Any : Reads Any
Reads-Any = record {
  signer = λ _ _. tt;
  estimate = λ _. tt;
  header = tt;
  tip = tt;
  nonce = λ _. tt;
  simulate = λ _. tt;
  code = λ _. tt;
  key = tt;
  post = λ _ _ _. tt;
  random = λ _. tt;
}
