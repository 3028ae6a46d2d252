-- ===== src/Convertor/Effects.antt =====
-- The convertor asks nothing of the outside but signatures.
use accounts_superposition_s.Prelude.{ℕ, Bytes, List, Option, none, some, ℤ}
use accounts_superposition_s.Exec.Emits.{Emits, emits_rules}
use accounts_superposition_s.Types.{SolveArgs, FreshBackwards, Permit}
use accounts_superposition_s.Model
use accounts_superposition_s.World.{Event, Externals}
use accounts_superposition_s.Events.{Reads}
use accounts_superposition_s.Convertor.Sign.{signature_of, sign_digest, create_solve_v2}
use accounts_superposition_s.Convertor.Request.{
  new_permit_graph, permit_graph, sign_solve, create_solve_args_sig_args,
  create_solve_args_sig_args_mint, create_solve_args_sig_args_mint_graph,
  create_payoff_for_other_args, create_payoff_for_other_args_graph,
}
use accounts_superposition_s.Convertor.Fresh.{
  authority_addr, create_account_to_fresh_backwards_graph, tag_fresh_backwards_with_mint_graph,
}

module _ {P : Event → Type 0} where
  pub signature_of-Emits :
      (out : Bytes) (failure : Option Bytes) → Emits P (signature_of out failure)
  unfolding signature_of
  signature_of-Emits out none = search emits_rules
  signature_of-Emits out (some e) = search emits_rules

  new_permit_graph-Emits :
      (asset deadline : ℕ) (v : ℤ) (r s : Bytes) → Emits P (new_permit_graph asset deadline v r s)
  unfolding new_permit_graph
  new_permit_graph-Emits asset deadline v r s = search emits_rules

  pub permit_graph-Emits :
      (asset : ℕ) (permit : Option Model.Permit) → Emits P (permit_graph asset permit)
  unfolding permit_graph
  permit_graph-Emits asset none = search emits_rules
  permit_graph-Emits asset (some p) = search (emits_rules, new_permit_graph-Emits)

  authority_addr-Emits : (a : Option Bytes) → Emits P (authority_addr a)
  unfolding authority_addr
  authority_addr-Emits none = search emits_rules
  authority_addr-Emits (some a) = search emits_rules

  pub create_account_to_fresh_backwards_graph-Emits :
      (key : Bytes) (c : Model.CreateAccount)
      → Emits P (create_account_to_fresh_backwards_graph key c)
  unfolding create_account_to_fresh_backwards_graph
  create_account_to_fresh_backwards_graph-Emits key c =
      search (emits_rules, authority_addr-Emits) depth 12

module _ (x : Externals) {P : Event → Type 0} (reads : Reads P) where
  sign_digest-Emits : (prog encoded : Bytes) → Emits P (sign_digest x prog encoded)
  unfolding sign_digest
  sign_digest-Emits prog encoded = search (emits_rules, signature_of-Emits, reads.signer)

  pub create_solve_v2-Emits :
      (prog : Bytes) (args : List SolveArgs) (p t : Bytes)
      → Emits P (create_solve_v2 x prog args p t)
  unfolding create_solve_v2
  create_solve_v2-Emits prog args p t = search (emits_rules, sign_digest-Emits)

  sign_solve-Emits : (prog : Bytes) (args : SolveArgs) → Emits P (sign_solve x prog args)
  unfolding sign_solve
  sign_solve-Emits prog args = search (emits_rules, sign_digest-Emits)

  mint-Emits :
      (prog : Bytes) (asset : ℕ) (market out amount referrer recipient : Bytes)
      (permit : Option Permit) (t : Bytes)
      → Emits P (
          create_solve_args_sig_args_mint x prog asset market out amount referrer recipient permit
            t)
  unfolding create_solve_args_sig_args_mint create_solve_args_sig_args
  mint-Emits prog asset market out amount referrer recipient permit t =
      search (emits_rules, sign_solve-Emits)

  pub mint_graph-Emits :
      (prog : Bytes) (asset : ℕ) (market out amount referrer recipient : Bytes)
      (permit : Option Model.Permit) (t : Bytes)
      → Emits P (
          create_solve_args_sig_args_mint_graph x prog asset market out amount referrer recipient
            permit t)
  unfolding create_solve_args_sig_args_mint_graph
  mint_graph-Emits prog asset market out amount referrer recipient permit t =
      search (emits_rules, permit_graph-Emits, mint-Emits) depth 12

  pub payoff_graph-Emits :
      (prog helper eoa : Bytes) (markets : List Bytes) (t : Bytes)
      → Emits P (create_payoff_for_other_args_graph x prog helper eoa markets t)
  unfolding create_payoff_for_other_args_graph create_payoff_for_other_args
  payoff_graph-Emits prog helper eoa markets t = search (emits_rules, sign_solve-Emits)

  pub tag_mint_graph-Emits :
      (prog : Bytes) (f : FreshBackwards) (asset : ℕ) (market out amount referrer recipient : Bytes)
      (permit : Option Model.Permit) (t : Bytes)
      → Emits P (
          tag_fresh_backwards_with_mint_graph x prog f asset market out amount referrer recipient
            permit t)
  unfolding tag_fresh_backwards_with_mint_graph
  tag_mint_graph-Emits prog f asset market out amount referrer recipient permit t =
      search (emits_rules, mint_graph-Emits)
