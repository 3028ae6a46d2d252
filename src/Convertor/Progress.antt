-- ===== src/Convertor/Progress.antt =====
-- A mint's operation and its message are made when the texts of the request decode.
use accounts_superposition_s.Prelude.{ℕ, ◌≡◌, refl, Bytes, List, Option, none, some, ℤ}
use accounts_superposition_s.Exec.{ask}
use accounts_superposition_s.Exec.Progress.{
  IsOk, Returns, returns_rules, Returns-pure, Returns-bind, Returns-bind_at, Returns-lift,
  Returns-wrap,
}
use accounts_superposition_s.Go.{hex_encode, set_bytes}
use accounts_superposition_s.Types.{SolveArgs}
use accounts_superposition_s.Model
use accounts_superposition_s.World.{History, Externals}
use accounts_superposition_s.Cooperation.{IsCooperative}
use accounts_superposition_s.Client.Progress.{Answers-IsOk}
use accounts_superposition_s.Ninelives.{new_mint}
use accounts_superposition_s.Convertor.Decode.{
  str_to_bytes, str_to_addr, amount_bytes, ms_ts_left, checked_v, checked_deadline,
}
use accounts_superposition_s.Convertor.Sign.{signature_of, sign_digest, create_solve_v2}
use accounts_superposition_s.Convertor.Request.{
  new_permit_graph, permit_graph, sign_solve, create_solve_args_sig_args,
  create_solve_args_sig_args_mint, create_solve_args_sig_args_mint_graph,
}

-- The optional permit decodes.
abbrev pub PermitDecodes : Option Model.Permit → Type 0
PermitDecodes none = Unit
PermitDecodes (some p) =
    IsOk (checked_deadline p.deadline)
    × IsOk (checked_v p.permit_v)
    × IsOk (str_to_bytes 32 p.permit_r)
    × IsOk (str_to_bytes 32 p.permit_s)

new_permit_graph-Returns :
    (asset deadline : ℕ) (v : ℤ) (r s : Bytes) (h : History)
    → IsOk (checked_v v)
    → IsOk (str_to_bytes 32 r)
    → IsOk (str_to_bytes 32 s)
    → Returns (new_permit_graph asset deadline v r s) h
unfolding new_permit_graph
new_permit_graph-Returns asset deadline v r s h v_ok r_ok s_ok = search returns_rules depth 12

permit_graph-Returns :
    (asset : ℕ) (p : Option Model.Permit) (h : History)
    → PermitDecodes p
    → Returns (permit_graph asset p) h
unfolding permit_graph
permit_graph-Returns asset none h d = Returns-pure none h
permit_graph-Returns asset (some p) h (d, v, r, s) =
    search (returns_rules, new_permit_graph-Returns) depth 12

signature_of-Returns :
    (out : Bytes) (failure : Option Bytes) (h : History)
    → failure ≡ none
    → Returns (signature_of out failure) h
unfolding signature_of
signature_of-Returns out none h e = Returns-pure _ h
signature_of-Returns out (some t) h e = absurd (cc (e))

module _ (x : Externals) (all : IsCooperative x) where
  sign_digest-Returns :
      (prog encoded : Bytes) (h : History) → Returns (sign_digest x prog encoded) h
  unfolding sign_digest ask
  sign_digest-Returns prog encoded h =
      Returns-bind_at _ _ h (x.signer_output prog (hex_encode (x.sha512 encoded)) h) refl
        (signature_of-Returns _ _ _ (all.signer _ _ h))

  pub create_solve_v2-Returns :
      (prog : Bytes) (args : List SolveArgs) (p t : Bytes) (h : History)
      → Returns (create_solve_v2 x prog args p t) h
  unfolding create_solve_v2
  create_solve_v2-Returns prog args p t h =
      Returns-bind _ _ h
        (Returns-wrap _ _ h (Returns-lift _ h (Answers-IsOk (all.solve_v2_args _))))
        λ encoded h₁.
          Returns-bind _ _ h₁ (sign_digest-Returns prog encoded h₁) λ sig h₂. Returns-pure _ h₂

  sign_solve-Returns :
      (prog : Bytes) (args : SolveArgs) (h : History) → Returns (sign_solve x prog args) h
  unfolding sign_solve
  sign_solve-Returns prog args h =
      Returns-bind _ _ h (Returns-wrap _ _ h (Returns-lift _ h (Answers-IsOk (all.solve_args _))))
        λ encoded h₁.
          Returns-bind _ _ h₁ (sign_digest-Returns prog encoded h₁) λ sig h₂. Returns-pure _ h₂

  new_mint-IsOk :
      (out value referrer recipient : Bytes) → IsOk (new_mint x out value referrer recipient)
  unfolding new_mint
  new_mint-IsOk out value referrer recipient =
      let (b, e) = all.mint out (set_bytes value) referrer recipient in (b, rw e refl)

  pub mint_graph-Returns :
      (prog : Bytes) (asset : ℕ) (market out amount referrer recipient : Bytes)
      (permit : Option Model.Permit) (ms_ts : Bytes) (h : History)
      → IsOk (str_to_bytes 8 out)
      → IsOk (amount_bytes amount)
      → IsOk (str_to_addr market)
      → IsOk (str_to_addr referrer)
      → IsOk (ms_ts_left ms_ts)
      → PermitDecodes permit
      → Returns
          (create_solve_args_sig_args_mint_graph x prog asset market out amount referrer recipient
            permit ms_ts)
          h
  unfolding create_solve_args_sig_args_mint_graph create_solve_args_sig_args_mint
      create_solve_args_sig_args
  mint_graph-Returns prog asset market out amount referrer recipient permit ms_ts h o a m ref t p =
      search (returns_rules, permit_graph-Returns, sign_solve-Returns, new_mint-IsOk) depth 30
