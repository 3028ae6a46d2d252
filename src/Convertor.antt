-- ===== src/Convertor.antt =====
-- lib/convertor/convertor.go: from request fields to the signed messages of the accounts contract.
mod Decode
mod Sign
mod Request
mod Fresh
pub mod Effects
pub mod DecodeLaws
pub mod AmountLaws
pub mod Signed
pub mod Created
pub mod Payoff
pub mod Permits
pub mod Progress
unfoldable pub use Decode.{
  str_to_bytes, str_to_addr, amount_bytes, ms_ts_right, ms_ts_left, checked_v, checked_deadline,
}
unfoldable pub use Sign.{signature_of, sign_digest, create_solve_v2, create_solve_v3}
unfoldable pub use Request.{
  new_permit, new_permit_graph, permit_graph, permit_list, sign_solve, create_solve_args_sig_args,
  create_solve_args_sig_args_no_token, create_solve_args_sig_args_graph,
  create_solve_args_sig_args_mint, create_solve_args_sig_args_mint_graph, payoff_markets,
  create_payoff_for_other_args, create_payoff_for_other_args_graph,
}
unfoldable pub use Fresh.{
  create_account_to_fresh_backwards, authority_addr, create_account_to_fresh_backwards_graph, tag,
  tag_fresh_backwards, tag_fresh_backwards_no_token, tag_fresh_backwards_graph,
  tag_fresh_backwards_with_mint, tag_fresh_backwards_with_mint_graph,
}
