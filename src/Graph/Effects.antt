-- ===== src/Graph/Effects.antt =====
-- What the pieces of the resolvers ask of the outside.
use accounts_superposition_s.Prelude.{ℕ, Bytes, String, [], ◌∷◌, Option, none, some, ℤ}
use accounts_superposition_s.Outcome.{Error}
use accounts_superposition_s.Exec.Emits.{Emits, emits_rules}
use accounts_superposition_s.Types.{FreshBackwards}
use accounts_superposition_s.Model
use accounts_superposition_s.World.{Event, insert_transaction, Reply, answer, failed, Externals}
use accounts_superposition_s.Events.{Reads}
use accounts_superposition_s.Convertor.Effects.{tag_mint_graph-Emits}
use accounts_superposition_s.Client.Effects.{call-Emits}
use accounts_superposition_s.Db.{some_row, pick_private_key}
use accounts_superposition_s.Graph.Resolver.{
  Config, Context, activate_soft_alarm, track_tx, checked_secret, make_secret,
}
use accounts_superposition_s.Graph.Send.{
  check_minimum, context_eoa, picked_key, alarm_unless_ignorable,
}
use accounts_superposition_s.Graph.Account.{tag_mint, insert, check_code}

module _ {P : Event → Type 0} where
  pub some_row-Emits : (o : Option Bytes) → Emits P (some_row o)
  unfolding some_row
  some_row-Emits none = search emits_rules
  some_row-Emits (some s) = search emits_rules

  pub checked_secret-Emits : (x : Externals) (r : Reply Bytes) → Emits P (checked_secret x r)
  unfolding checked_secret
  checked_secret-Emits x (answer b) = search emits_rules
  checked_secret-Emits x (failed e) = search emits_rules

  pub check_minimum-Emits : (m : ℤ) (amt : Option ℤ) → Emits P (check_minimum m amt)
  unfolding check_minimum
  check_minimum-Emits m none = search emits_rules
  check_minimum-Emits m (some amt) = search emits_rules

  pub context_eoa-Emits : (o : Option Bytes) → Emits P (context_eoa o)
  unfolding context_eoa
  context_eoa-Emits none = search emits_rules
  context_eoa-Emits (some e) = search emits_rules

module _ (x : Externals) {P : Event → Type 0} (reads : Reads P) where
  pub pick_private_key-Emits : Emits P (pick_private_key x)
  unfolding pick_private_key
  pick_private_key-Emits = search (emits_rules, some_row-Emits, reads.key) depth 10

  pub alarm-Emits :
      (url : Bytes) (snowflake : ℕ) (e : Error) → Emits P (activate_soft_alarm x url snowflake e)
  unfolding activate_soft_alarm
  alarm-Emits [] snowflake e = search emits_rules
  alarm-Emits (c ∷ url) snowflake e = search (emits_rules, reads.post)

  pub make_secret-Emits : Emits P (make_secret x)
  unfolding make_secret
  make_secret-Emits = search (emits_rules, checked_secret-Emits, reads.random)

  module _ (r : Config) where
    pub picked_key-Emits : Emits P (picked_key x r)
    unfolding picked_key
    picked_key-Emits = search (emits_rules, pick_private_key-Emits)

    pub alarm_unless_ignorable-Emits :
        (ctx : Context) (e report : Error) → Emits P (alarm_unless_ignorable x r ctx e report)
    unfolding alarm_unless_ignorable
    alarm_unless_ignorable-Emits ctx e report = search (emits_rules, alarm-Emits)

    pub tag_mint-Emits :
        (f : FreshBackwards) (eoa : Bytes) (mint : Option Model.Mint)
        → Emits P (tag_mint x r f eoa mint)
    unfolding tag_mint
    tag_mint-Emits f eoa none = search emits_rules
    tag_mint-Emits f eoa (some mint) = search (emits_rules, tag_mint_graph-Emits)

    pub check_code-Emits : (a : Bytes) → Emits P (check_code x r a)
    unfolding check_code
    check_code-Emits a = search (emits_rules, call-Emits, reads.code) depth 10

    pub insert-Emits : (e : Event) → P e → Emits P (insert x r e)
    unfolding insert
    insert-Emits e p = search (emits_rules, call-Emits)

  pub track_tx-Emits :
      (eoa hash : Bytes) (gas : ℕ) (desc : String)
      → P (insert_transaction eoa hash gas desc)
      → Emits P (track_tx x eoa hash gas desc)
  unfolding track_tx
  track_tx-Emits eoa hash gas desc p = search emits_rules
