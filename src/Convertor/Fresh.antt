-- ===== src/Convertor/Fresh.antt =====
-- The creation of an account, and the operations that are tagged on to it. A function that mutates
-- `*f` returns the new value; beside an error `*f` is unchanged in the source too.
use accounts_superposition_s.Prelude.{ℕ, Bytes, [], ◌∷◌, ◌++◌, Option, none, some}
use accounts_superposition_s.Exec.{Exec, pure, lift, wrap, ◌>>=◌}
use accounts_superposition_s.Types.{Permit, FreshBackwards, SolveArgsSigArgs}
use accounts_superposition_s.Model
use accounts_superposition_s.World.{Event, Externals}
use accounts_superposition_s.Convertor.Decode.{str_to_bytes, str_to_addr, checked_v}
use accounts_superposition_s.Convertor.Request.{
  create_solve_args_sig_args, create_solve_args_sig_args_no_token, create_solve_args_sig_args_graph,
  create_solve_args_sig_args_mint, create_solve_args_sig_args_mint_graph,
}

unfoldable pub create_account_to_fresh_backwards :
    Bytes → Bytes → ℕ → Bytes → Bytes → Option Bytes → FreshBackwards
create_account_to_fresh_backwards pub_key eoa v r s authority = record {
  key = pub_key;
  eoa_addr = eoa;
  v = v;
  r = r;
  s = s;
  solve_args = [];
  authority = authority;
}

-- `if a := createAccount.Authority; a != nil { … }`
unfoldable pub authority_addr : Option Bytes → Exec Event (Option Bytes)
authority_addr none = pure none
authority_addr (some a) = do addr ← wrap "authority: " (lift (str_to_addr a)); pure (some addr)

unfoldable pub create_account_to_fresh_backwards_graph :
    Bytes → Model.CreateAccount → Exec Event FreshBackwards
unfolding create_account_to_fresh_backwards authority_addr
create_account_to_fresh_backwards_graph pub_key c = do
  eoa ← wrap "eoa: " (lift (str_to_addr c.eoa_addr))
  authority ← authority_addr c.authority
  v ← lift (checked_v c.sig_v)
  r ← wrap "r: " (lift (str_to_bytes 32 c.sig_r))
  s ← wrap "s: " (lift (str_to_bytes 32 c.sig_s))
  pure (create_account_to_fresh_backwards pub_key eoa v r s authority)

-- `f.SolveArgs = append(f.SolveArgs, *m)`
unfoldable pub tag : FreshBackwards → SolveArgsSigArgs → FreshBackwards
tag f m = record f { solve_args = f.solve_args ++ m ∷ [] }

module _ (x : Externals) where
  unfoldable pub tag_fresh_backwards :
      Bytes
      → FreshBackwards
      → ℕ
      → Bytes
      → Bytes
      → Bytes
      → Option Permit
      → Bytes
      → Exec Event FreshBackwards
  unfolding tag
  tag_fresh_backwards prog f asset target amount cd permit ms_ts = do
    m ← create_solve_args_sig_args x prog asset target amount cd permit ms_ts
    pure (tag f m)

  unfoldable pub tag_fresh_backwards_no_token :
      Bytes → FreshBackwards → Bytes → Bytes → Bytes → Exec Event FreshBackwards
  unfolding tag
  tag_fresh_backwards_no_token prog f target cd ms_ts = do
    m ← create_solve_args_sig_args_no_token x prog target cd ms_ts
    pure (tag f m)

  unfoldable pub tag_fresh_backwards_graph :
      Bytes
      → FreshBackwards
      → ℕ
      → Bytes
      → Bytes
      → Bytes
      → Option Model.Permit
      → Bytes
      → Exec Event FreshBackwards
  unfolding tag
  tag_fresh_backwards_graph prog f asset target amount cd permit ms_ts = do
    m ← create_solve_args_sig_args_graph x prog asset target amount cd permit ms_ts
    pure (tag f m)

  unfoldable pub tag_fresh_backwards_with_mint :
      Bytes
      → FreshBackwards
      → ℕ
      → Bytes
      → Bytes
      → Bytes
      → Bytes
      → Bytes
      → Option Permit
      → Bytes
      → Exec Event FreshBackwards
  unfolding tag
  tag_fresh_backwards_with_mint prog f asset market out amount referrer recipient permit ms_ts = do
    m ←
        create_solve_args_sig_args_mint x prog asset market out amount referrer recipient permit
          ms_ts
    pure (tag f m)

  unfoldable pub tag_fresh_backwards_with_mint_graph :
      Bytes
      → FreshBackwards
      → ℕ
      → Bytes
      → Bytes
      → Bytes
      → Bytes
      → Bytes
      → Option Model.Permit
      → Bytes
      → Exec Event FreshBackwards
  unfolding tag
  tag_fresh_backwards_with_mint_graph prog f asset market out amount referrer recipient permit
        ms_ts =
      do
        m ←
            create_solve_args_sig_args_mint_graph x prog asset market out amount referrer recipient
              permit ms_ts
        pure (tag f m)
