-- ===== src/Graph/Calls.antt =====
-- How often a resolver asks the outside.
use accounts_superposition_s.Prelude.{ℕ, Bytes, String, List, [], ◌∷◌, Bool, Option, none, some, ℤ}
use accounts_superposition_s.Outcome.{Error}
use accounts_superposition_s.Exec.Emits.{emits_rules, Emits-pure, Emits-raise, Emits-exit}
use accounts_superposition_s.Exec.Bounded.{
  Bounded, Bounded-silent, Bounded-ask, Bounded-bind, Bounded-skip, Bounded-last, Bounded-when,
  Bounded-on_error, Bounded-wrap,
}
use accounts_superposition_s.Types.{SolveArgs, FreshBackwards}
use accounts_superposition_s.Model
use accounts_superposition_s.World.{Event, Externals}
use accounts_superposition_s.Client.Calls.{call-Bounded, send_arguments-Bounded}
use accounts_superposition_s.Convertor.{
  sign_digest, sign_solve, create_solve_v2, create_solve_args_sig_args_mint_graph,
}
use accounts_superposition_s.Exec.{raise, when, ◌>>=◌}
use accounts_superposition_s.Convertor.{
  create_solve_args_sig_args_mint, create_solve_args_sig_args, create_payoff_for_other_args_graph,
  create_payoff_for_other_args, tag_fresh_backwards_with_mint_graph,
}
use accounts_superposition_s.Convertor.Effects.{
  signature_of-Emits, permit_graph-Emits, create_account_to_fresh_backwards_graph-Emits,
}
use accounts_superposition_s.Db.{pick_private_key}
use accounts_superposition_s.Graph.Effects.{
  some_row-Emits, checked_secret-Emits, check_minimum-Emits, context_eoa-Emits,
}
use accounts_superposition_s.Graph.Send.{
  alarm_unless_ignorable, picked_key, ninelives_mint, claim_rewards,
}
use accounts_superposition_s.Graph.Account.{
  tag_mint, insert, check_code, create_account_exec, request_secret,
}
use accounts_superposition_s.Graph.Resolver.{
  Config, Context, activate_soft_alarm, track_tx, make_secret,
}

module _ (x : Externals) where
  sign_digest-Bounded : (prog encoded : Bytes) → Bounded 1 (sign_digest x prog encoded)
  unfolding sign_digest
  sign_digest-Bounded prog encoded =
      Bounded-last 1 _ _ (Bounded-ask _ _) (λ _. signature_of-Emits _ _)

  create_solve_v2-Bounded :
      (prog : Bytes) (args : List SolveArgs) (p t : Bytes)
      → Bounded 1 (create_solve_v2 x prog args p t)
  unfolding create_solve_v2
  create_solve_v2-Bounded prog args p t =
      Bounded-skip 1 _ _ (search emits_rules)
        λ _. Bounded-last 1 _ _ (sign_digest-Bounded prog _) (λ _. Emits-pure _)

  sign_solve-Bounded : (prog : Bytes) (args : SolveArgs) → Bounded 1 (sign_solve x prog args)
  unfolding sign_solve
  sign_solve-Bounded prog args =
      Bounded-skip 1 _ _ (search emits_rules)
        λ _. Bounded-last 1 _ _ (sign_digest-Bounded prog _) (λ _. Emits-pure _)

  mint_graph-Bounded :
      (prog : Bytes) (asset : ℕ) (market out amount referrer recipient : Bytes)
      (permit : Option Model.Permit) (t : Bytes)
      → Bounded 1 (
          create_solve_args_sig_args_mint_graph x prog asset market out amount referrer recipient
            permit t)
  unfolding create_solve_args_sig_args_mint_graph create_solve_args_sig_args_mint
      create_solve_args_sig_args
  mint_graph-Bounded prog asset market out amount referrer recipient permit t =
      Bounded-skip 1 _ _ (search emits_rules) λ _. Bounded-skip 1 _ _ (search emits_rules) λ _.
        Bounded-skip 1 _ _ (search emits_rules) λ _. Bounded-skip 1 _ _ (search emits_rules) λ _.
          Bounded-skip 1 _ _ (search emits_rules) λ _.
            Bounded-skip 1 _ _ (permit_graph-Emits asset permit)
              λ _. Bounded-skip 1 _ _ (search emits_rules) λ _. sign_solve-Bounded prog _

  payoff_graph-Bounded :
      (prog helper eoa : Bytes) (markets : List Bytes) (t : Bytes)
      → Bounded 1 (create_payoff_for_other_args_graph x prog helper eoa markets t)
  unfolding create_payoff_for_other_args_graph create_payoff_for_other_args
  payoff_graph-Bounded prog helper eoa markets t = Bounded-skip 1 _ _ (search emits_rules) λ _.
      Bounded-skip 1 _ _ (search emits_rules)
        λ _. Bounded-skip 1 _ _ (search emits_rules) λ _. sign_solve-Bounded prog _

  pick_private_key-Bounded : Bounded 1 (pick_private_key x)
  unfolding pick_private_key
  pick_private_key-Bounded =
      Bounded-last 1 _ _ (Bounded-ask _ _) (λ _. search (emits_rules, some_row-Emits) depth 10)

  alarm-Bounded :
      (url : Bytes) (snowflake : ℕ) (e : Error) → Bounded 1 (activate_soft_alarm x url snowflake e)
  unfolding activate_soft_alarm
  alarm-Bounded [] snowflake e = Bounded-silent 1 _ (Emits-pure tt)
  alarm-Bounded (c ∷ url) snowflake e =
      Bounded-last 1 _ _ (Bounded-ask _ _) (λ _. search emits_rules)

  -- An alarm, if it is due, and then the error.
  reported-Bounded :
      {A : Type 0} (due : Bool) (url : Bytes) (snowflake : ℕ) (e report : Error)
      → Bounded 1 (when due (activate_soft_alarm x url snowflake report) >>= λ _. raise {A = A} e)
  reported-Bounded due url snowflake e report =
      Bounded-last 1 _ _ (Bounded-when 1 due _ (alarm-Bounded url snowflake report))
        (λ _. Emits-raise e)

  make_secret-Bounded : Bounded 1 (make_secret x)
  unfolding make_secret
  make_secret-Bounded = Bounded-last 1 _ _ (Bounded-ask _ _) (checked_secret-Emits x)

  track_tx-Bounded :
      (eoa hash : Bytes) (gas : ℕ) (desc : String) → Bounded 1 (track_tx x eoa hash gas desc)
  unfolding track_tx
  track_tx-Bounded eoa hash gas desc = Bounded-last 1 _ _ (Bounded-ask _ _) (λ _. Emits-pure tt)

  module _ (r : Config) where
    picked_key-Bounded : Bounded 1 (picked_key x r)
    unfolding picked_key
    picked_key-Bounded =
        Bounded-on_error 1 0 _ _ pick_private_key-Bounded (λ e. Bounded-silent 0 _ (Emits-exit _))

    tag_mint-Bounded :
        (f : FreshBackwards) (eoa : Bytes) (mint : Option Model.Mint)
        → Bounded 1 (tag_mint x r f eoa mint)
    unfolding tag_mint tag_fresh_backwards_with_mint_graph
    tag_mint-Bounded f eoa none = Bounded-silent 1 _ (Emits-pure f)
    tag_mint-Bounded f eoa (some mint) =
        Bounded-wrap 1 _ _
          (Bounded-last 1 _ _ (mint_graph-Bounded _ _ _ _ _ _ _ _ _) (λ _. Emits-pure _))

    insert-Bounded : (e : Event) → Bounded 1 (insert x r e)
    unfolding insert
    insert-Bounded e =
        Bounded-on_error 1 0 _ _ (call-Bounded _ _) (λ _. Bounded-silent 0 _ (Emits-raise _))

    check_code-Bounded : (a : Bytes) → Bounded 1 (check_code x r a)
    unfolding check_code
    check_code-Bounded a = Bounded-when 1 _ _ (
        Bounded-last 1 _ _
          (Bounded-on_error 1 0 _ _ (call-Bounded _ _) (λ _. Bounded-silent 0 _ (Emits-raise _)))
          (λ _. search emits_rules))

    module _ (ctx : Context) where
      pub ninelives_mint-Bounded :
          (mint : Model.Mint) (dryrun : Option Bool)
          → Bounded 11 (ninelives_mint x r ctx mint dryrun)
      unfolding ninelives_mint alarm_unless_ignorable
      ninelives_mint-Bounded mint dryrun = Bounded-skip 11 _ _ (search emits_rules) λ _.
          Bounded-skip 11 _ _ (check_minimum-Emits _ _) λ _.
            Bounded-skip 11 _ _ (search emits_rules) λ _.
              Bounded-skip 11 _ _ (context_eoa-Emits _) λ _.
                Bounded-bind 1 10 _ _ picked_key-Bounded λ (_, _).
                  Bounded-bind 2 8 _ _
                    (Bounded-on_error 1 1 _ _ (mint_graph-Bounded _ _ _ _ _ _ _ _ _)
                      (λ e. reported-Bounded _ _ _ _ _))
                    λ _.
                      Bounded-bind 1 7 _ _ (Bounded-wrap 1 _ _ (create_solve_v2-Bounded _ _ _ _))
                        λ _.
                          Bounded-bind 6 1 _ _
                            (Bounded-on_error 5 1 _ _ (send_arguments-Bounded _ _ _ _ _ _ _ _ _)
                              (λ e. reported-Bounded _ _ _ _ _))
                            λ _.
                              Bounded-last 1 _ _ (Bounded-when 1 _ _ (track_tx-Bounded _ _ _ _))
                                (λ _. Emits-pure _)

      pub claim_rewards-Bounded :
          (markets : List Bytes) (ms_ts : Bytes) (dryrun : Option Bool)
          → Bounded 10 (claim_rewards x r ctx markets ms_ts dryrun)
      unfolding claim_rewards
      claim_rewards-Bounded markets ms_ts dryrun = Bounded-skip 10 _ _ (search emits_rules) λ _.
          Bounded-skip 10 _ _ (search emits_rules) λ _.
            Bounded-skip 10 _ _ (context_eoa-Emits _) λ _.
              Bounded-bind 1 9 _ _ picked_key-Bounded λ (_, _).
                Bounded-bind 1 8 _ _ (Bounded-wrap 1 _ _ (payoff_graph-Bounded _ _ _ _ _)) λ _.
                  Bounded-bind 1 7 _ _ (Bounded-wrap 1 _ _ (create_solve_v2-Bounded _ _ _ _)) λ _.
                    Bounded-bind 6 1 _ _
                      (Bounded-on_error 5 1 _ _ (send_arguments-Bounded _ _ _ _ _ _ _ _ _)
                        (λ e. Bounded-last 1 _ _ (alarm-Bounded _ _ _) (λ _. Emits-raise _)))
                      λ _.
                        Bounded-last 1 _ _ (Bounded-when 1 _ _ (track_tx-Bounded _ _ _ _))
                          (λ _. Emits-pure _)

      pub create_account_exec-Bounded :
          (c : Model.CreateAccount) (mint : Option Model.Mint) (dryrun : Option Bool)
          → Bounded 11 (create_account_exec x r ctx c mint dryrun)
      unfolding create_account_exec
      create_account_exec-Bounded c mint dryrun =
          Bounded-skip 11 _ _ (search (emits_rules, create_account_to_fresh_backwards_graph-Emits))
            λ _. Bounded-skip 11 _ _ (search emits_rules) λ _.
              Bounded-bind 1 10 _ _ (tag_mint-Bounded _ _ _) λ _.
                Bounded-bind 1 9 _ _
                  (Bounded-on_error 1 0 _ _ pick_private_key-Bounded
                    (λ e. Bounded-silent 0 _ (Emits-exit _)))
                  λ (_, _).
                    Bounded-bind 6 3 _ _
                      (Bounded-on_error 5 1 _ _ (send_arguments-Bounded _ _ _ _ _ _ _ _ _)
                        (λ e. reported-Bounded _ _ _ _ _))
                      λ (_, _). Bounded-bind 1 2 _ _ make_secret-Bounded λ _.
                        Bounded-last 2 _ _
                          (Bounded-when 2 _ _
                            (Bounded-bind 1 1 _ _ (insert-Bounded _) λ _. track_tx-Bounded _ _ _ _))
                          (λ _. Emits-pure _)

      pub request_secret-Bounded :
          (eoa : Bytes) (nonce v : ℤ) (sr ss : Bytes) (dryrun : Option Bool)
          → Bounded 3 (request_secret x r ctx eoa nonce v sr ss dryrun)
      unfolding request_secret
      request_secret-Bounded eoa nonce v sr ss dryrun = Bounded-skip 3 _ _ (search emits_rules) λ _.
          Bounded-skip 3 _ _ (search emits_rules) λ _. Bounded-skip 3 _ _ (search emits_rules) λ _.
            Bounded-skip 3 _ _ (search emits_rules) λ _.
              Bounded-skip 3 _ _ (search emits_rules) λ _.
                Bounded-skip 3 _ _ (search emits_rules) λ _.
                  Bounded-skip 3 _ _ (search emits_rules) λ _.
                    Bounded-bind 1 2 _ _ (check_code-Bounded _) λ _.
                      Bounded-bind 1 1 _ _ make_secret-Bounded λ _.
                        Bounded-last 1 _ _ (Bounded-when 1 _ _ (insert-Bounded _))
                          (λ _. Emits-pure _)
