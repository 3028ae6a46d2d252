-- ===== src/Concurrent.antt =====
-- Handlers that run at the same time. Each asks its own events in its own order, and is answered
-- from what all of them have asked so far.
pub mod Order
pub mod Replay
use accounts_superposition_s.Prelude.{ℕ, ◌≡◌, List, [], ◌∷◌, Bool, true, false, ◌==◌, if◌then◌else◌}
use accounts_superposition_s.World.{Event, History, Externals}

-- The outside as one handler meets it: with its own history `h` it is answered as of `now h`.
abbrev pub through : (History → History) → Externals → Externals
through now x = record x {
  signer_output = λ prog d h. x.signer_output prog d (now h);
  estimate = λ m h. x.estimate m (now h);
  base_fee = λ h. x.base_fee (now h);
  gas_tip_cap = λ h. x.gas_tip_cap (now h);
  nonce_at = λ a h. x.nonce_at a (now h);
  contract_result = λ m h. x.contract_result m (now h);
  send_result = λ t h. x.send_result t (now h);
  code = λ a h. x.code a (now h);
  private_key_row = λ h. x.private_key_row (now h);
  exec_result = λ e h. x.exec_result e (now h);
  count_row = λ e h. x.count_row e (now h);
  statistics_rows = λ h. x.statistics_rows (now h);
  post_result = λ e h. x.post_result e (now h);
  random_bytes = λ n h. x.random_bytes n (now h);
}

-- What was asked, by the handler of which number, the newest first.
abbrev pub Shared : Type 0
Shared = List (ℕ × Event)

-- all that was asked
unfoldable pub everything : Shared → History
everything [] = []
everything ((i, e) ∷ g) = e ∷ everything g

-- what one handler has asked
unfoldable pub own : ℕ → Shared → History
own i [] = []
own i ((j, e) ∷ g) = let rest = own i g in if j == i then e ∷ rest else rest

-- Each event is answered as of the moment when it was asked.
abbrev pub IsInterleaving : (ℕ → History → History) → Shared → Type 0
IsInterleaving now [] = Unit
IsInterleaving now ((i, e) ∷ g) = (now i (own i g) ≡ everything g) × IsInterleaving now g
