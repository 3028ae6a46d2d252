-- ===== src/Tests/Opening.antt =====
-- One user opens an account and comes back with its secret.
use accounts_superposition_s.Prelude.{
  ◌≡◌, refl, Bytes, codes, [], ◌++◌, ◌∷◌, ◌==◌, ℕ, zero, suc, replicate, Bool, Bool-cases, inl, inr,
  true, if◌then◌else◌, arith, false, none, All, IsByte, bytes_eq,
}
use accounts_superposition_s.Outcome.{ok}
use accounts_superposition_s.Exec.{
  pure, raise, crash, exit, lift, ask, ◌>>=◌, refuse_if, when, on_error, wrap,
}
use accounts_superposition_s.Exec.Emits.{same}
use accounts_superposition_s.Go.{
  copy, copy_from, hex_encode, hex_digit, hex_decode, decode_pair, hex_value, set_bytes,
  trim_prefix, has_prefix, to_lower, lower, with_margin,
}
use accounts_superposition_s.Go.SplitLaws.{Without}
use accounts_superposition_s.Model
use accounts_superposition_s.Types.{zeros}
use accounts_superposition_s.World.{History, answer}
use accounts_superposition_s.Convertor.{
  str_to_bytes, str_to_addr, checked_v, create_account_to_fresh_backwards,
  create_account_to_fresh_backwards_graph, authority_addr,
}
use accounts_superposition_s.Client.{call, known_fee, routed, deliver, send, send_arguments}
use accounts_superposition_s.Db.{some_row, pick_private_key}
use accounts_superposition_s.Database.{exec_on}
use accounts_superposition_s.Database.Login.{
  GivesBytes, holder, bearing, serve_http-create_account_exec,
}
use accounts_superposition_s.Graph.Resolver.{is_dryrun, track_tx, checked_secret, make_secret}
use accounts_superposition_s.Graph.Account.{tag_mint, insert, create_account_exec}
use accounts_superposition_s.Server.Auth.{serve, cors_headers, serve_http}
use accounts_superposition_s.Tests.Fixture.{config, nobody, new_account, user_text}
use accounts_superposition_s.Tests.Ledger.{database, printing_node, ledger}

abbrev created : Model.CreateAccountExec
created = record {
  hash = codes "0x" ++ zeros 32;
  secret = codes "abababababababababababababababababababababababababababababababab";
}

abbrev opened : History
opened = (create_account_exec ledger config nobody new_account none none []).1

account_opened : (create_account_exec ledger config nobody new_account none none []).0 ≡ ok created
unfolding create_account_exec tag_mint insert pure raise crash exit lift ask ◌>>=◌ refuse_if when
    on_error wrap copy copy_from hex_encode hex_digit hex_decode decode_pair hex_value set_bytes
    trim_prefix has_prefix str_to_bytes str_to_addr checked_v create_account_to_fresh_backwards
    create_account_to_fresh_backwards_graph authority_addr call known_fee routed deliver send
    send_arguments some_row pick_private_key is_dryrun track_tx checked_secret make_secret exec_on
    with_margin to_lower lower
account_opened = refl

is_wet : is_dryrun none ≡ false
unfolding is_dryrun
is_wet = refl

node-GivesBytes : GivesBytes printing_node
node-GivesBytes n h b e = rw (← answer-injective e) (All-replicate 32 0xab (omega arith))
  where
    answer-injective : {a b : Bytes} → answer a ≡ answer b → a ≡ b
    answer-injective p = cc (p)

    All-replicate : (k c : ℕ) → IsByte c → All IsByte (replicate k c)
    All-replicate zero c p = tt
    All-replicate (suc k) c p = (p, All-replicate k c p)

unfoldable lacks : ℕ → Bytes → Bool
lacks sep [] = true
lacks sep (c ∷ s) = let rest = lacks sep s in if c == sep then false else rest

lacks-Without : (sep : ℕ) (s : Bytes) → lacks sep s ≡ true → Without sep s
unfolding lacks
lacks-Without sep [] p = tt
lacks-Without sep (c ∷ s) p = elim (Bool-cases (c == sep)) [
  | inl e ↦ absurd (cc (rw e at p))
  | inr e ↦ (e, lacks-Without sep s (rw e at p))
]

user_text-Without : Without b':' user_text
unfolding lacks
user_text-Without = lacks-Without b':' user_text refl

not_admin : bytes_eq (user_text ++ b':' ∷ created.secret) (codes "admin") ≡ false
unfolding bytes_eq
not_admin = refl

serve_http-create_account_exec_example :
    (serve_http ledger (codes "admin") 1 (bearing [] user_text created.secret) opened).0
    ≡ ok (cors_headers [], serve (holder printing_node config 1 user_text))
serve_http-create_account_exec_example =
    serve_http-create_account_exec printing_node database config nobody new_account none none []
      opened created (codes "admin") [] user_text 1 node-GivesBytes is_wet account_opened same refl
      refl user_text-Without not_admin refl
