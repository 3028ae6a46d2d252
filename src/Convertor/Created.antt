-- ===== src/Convertor/Created.antt =====
-- The message that creates an account, from the texts of the request.
use accounts_superposition_s.Prelude.{ℕ, ◌≡◌, refl, sym, Bytes, [], Option, none, some}
use accounts_superposition_s.Outcome.{ok}
use accounts_superposition_s.Exec.Inversion.{
  Returned, pure-Returned, lift-Returned, bind-Returned, wrap-Returned,
}
use accounts_superposition_s.Types.{FreshBackwards, SolveArgsSigArgs}
use accounts_superposition_s.Model
use accounts_superposition_s.World.{History, Externals}
use accounts_superposition_s.Convertor.Decode.{str_to_bytes, str_to_addr, checked_v}
use accounts_superposition_s.Convertor.Fresh.{
  create_account_to_fresh_backwards, authority_addr, create_account_to_fresh_backwards_graph, tag,
  tag_fresh_backwards_with_mint_graph,
}
use accounts_superposition_s.Convertor.Signed.{IsMint, create_solve_args_sig_args_mint_graph-IsMint}

-- The optional authority is decoded, or there is none.
abbrev pub IsAuthority : Option Bytes → Option Bytes → Type 0
IsAuthority none b = b ≡ none
IsAuthority (some text) b = (addr : Bytes) × (str_to_addr text ≡ ok addr) × (b ≡ some addr)

authority_addr-Returned :
    (o : Option Bytes) {b : Option Bytes} {h h' : History}
    → Returned (authority_addr o) h b h'
    → IsAuthority o b
unfolding authority_addr
authority_addr-Returned none p = sym (pure-Returned p).0
authority_addr-Returned (some text) p =
    let (addr, h₁, p₁, rest₁) = bind-Returned p in
    (addr, (lift-Returned (wrap-Returned _ _ p₁)).0, sym (pure-Returned rest₁).0)

-- What the message made from the request holds.
pub record IsFresh (pub_key : Bytes) (c : Model.CreateAccount) (f : FreshBackwards) : Type 0 where
  pub key : f.key ≡ pub_key
  pub eoa_decoded : str_to_addr c.eoa_addr ≡ ok f.eoa_addr
  pub v_checked : checked_v c.sig_v ≡ ok f.v
  pub r_decoded : str_to_bytes 32 c.sig_r ≡ ok f.r
  pub s_decoded : str_to_bytes 32 c.sig_s ≡ ok f.s
  pub authority : IsAuthority c.authority f.authority
  pub no_operations : f.solve_args ≡ []

pub create_account_to_fresh_backwards_graph-IsFresh :
    (pub_key : Bytes) (c : Model.CreateAccount) {f : FreshBackwards} {h h' : History}
    → Returned (create_account_to_fresh_backwards_graph pub_key c) h f h'
    → IsFresh pub_key c f
unfolding create_account_to_fresh_backwards_graph create_account_to_fresh_backwards
create_account_to_fresh_backwards_graph-IsFresh pub_key c p =
    let (eoa, h₁, p₁, rest₁) = bind-Returned p in
    let (authority, h₂, p₂, rest₂) = bind-Returned rest₁ in
    let (v, h₃, p₃, rest₃) = bind-Returned rest₂ in
    let (r, h₄, p₄, rest₄) = bind-Returned rest₃ in
    let (s, h₅, p₅, rest₅) = bind-Returned rest₄ in
    rw (← (pure-Returned rest₅).0) (record {
      key = refl;
      eoa_decoded = (lift-Returned (wrap-Returned _ _ p₁)).0;
      v_checked = (lift-Returned p₃).0;
      r_decoded = (lift-Returned (wrap-Returned _ _ p₄)).0;
      s_decoded = (lift-Returned (wrap-Returned _ _ p₅)).0;
      authority = authority_addr-Returned _ p₂;
      no_operations = refl;
    })

module _ (x : Externals) where
  -- The operation of a mint, appended to the message.
  pub record IsTagged (asset : ℕ) (mint : Model.Mint) (recipient : Bytes) (f f' : FreshBackwards)
      : Type 0 where
    pub operation : SolveArgsSigArgs
    pub appended : f' ≡ tag f operation
    pub is_mint :
        IsMint x asset mint.market mint.outcome mint.amount mint.referrer recipient mint.permit
          mint.ms_ts operation.args

  pub tag_fresh_backwards_with_mint_graph-IsTagged :
      (prog : Bytes) (f : FreshBackwards) (asset : ℕ) (mint : Model.Mint) (recipient : Bytes)
      {f' : FreshBackwards} {h h' : History}
      → Returned
          (tag_fresh_backwards_with_mint_graph x prog f asset mint.market mint.outcome mint.amount
            mint.referrer recipient mint.permit mint.ms_ts)
          h
          f'
          h'
      → IsTagged asset mint recipient f f'
  unfolding tag_fresh_backwards_with_mint_graph
  tag_fresh_backwards_with_mint_graph-IsTagged prog f asset mint recipient p =
      let (m, h₁, p₁, rest₁) = bind-Returned p in
      record {
        operation = m;
        appended = sym (pure-Returned rest₁).0;
        is_mint =
            create_solve_args_sig_args_mint_graph-IsMint x prog asset mint.market mint.outcome
              mint.amount mint.referrer recipient mint.permit mint.ms_ts m _ _ p₁;
      }
