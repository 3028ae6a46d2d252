-- ===== src/Graph/LiveAccount.antt =====
-- A valid creation of an account goes through when the outside answers.
use accounts_superposition_s.Prelude.{◌≡◌, refl, Bytes, Bool, true, Option, none, some}
use accounts_superposition_s.Exec.Progress.{
  IsOk, Returns, returns_rules, Returns-pure, Returns-bind, Returns-wrap, Returns-on_error,
  Returns-refuse_if, Returns-when,
}
use accounts_superposition_s.Exec.Onward.{Returns-bind_with}
use accounts_superposition_s.Exec.Inversion.{on_error-Returned, exit-never}
use accounts_superposition_s.Graph.Created.{make_secret-Returned}
use accounts_superposition_s.Model
use accounts_superposition_s.Types.{FreshBackwards}
use accounts_superposition_s.World.{History, Externals}
use accounts_superposition_s.Cooperation.{IsCooperative}
use accounts_superposition_s.Convertor.{
  str_to_bytes, str_to_addr, checked_v, amount_bytes, ms_ts_left, authority_addr,
  create_account_to_fresh_backwards_graph, tag_fresh_backwards_with_mint_graph,
}
use accounts_superposition_s.Convertor.Progress.{PermitDecodes, mint_graph-Returns}
use accounts_superposition_s.Client.Progress.{send_arguments-Returns}
use accounts_superposition_s.Graph.Resolver.{Config, Context}
use accounts_superposition_s.Graph.Account.{tag_mint, create_account_exec}
use accounts_superposition_s.Graph.Steps.{
  track_tx-Returns, pick_private_key-Returns, pick_private_key-Returned, make_secret-Returns,
  insert-Returns,
}

-- The optional authority is an address.
abbrev pub AuthorityDecodes : Option Bytes → Type 0
AuthorityDecodes none = Unit
AuthorityDecodes (some a) = IsOk (str_to_addr a)

-- The texts of the optional mint decode.
abbrev pub MintDecodes : Option Model.Mint → Type 0
MintDecodes none = Unit
MintDecodes (some m) =
    IsOk (str_to_bytes 8 m.outcome)
    × IsOk (amount_bytes m.amount)
    × IsOk (str_to_addr m.market)
    × IsOk (str_to_addr m.referrer)
    × IsOk (ms_ts_left m.ms_ts)
    × PermitDecodes m.permit

-- A request for an account that the server has no reason to refuse.
pub record IsValidAccount (x : Externals) (c : Model.CreateAccount) (mint : Option Model.Mint)
    : Type 0 where
  pub is_address : x.is_hex_address c.eoa_addr ≡ true
  pub eoa_decodes : IsOk (str_to_addr c.eoa_addr)
  pub authority_decodes : AuthorityDecodes c.authority
  pub v_decodes : IsOk (checked_v c.sig_v)
  pub r_decodes : IsOk (str_to_bytes 32 c.sig_r)
  pub s_decodes : IsOk (str_to_bytes 32 c.sig_s)
  pub mint_decodes : MintDecodes mint

authority_addr-Returns :
    (a : Option Bytes) (h : History) → AuthorityDecodes a → Returns (authority_addr a) h
unfolding authority_addr
authority_addr-Returns none h d = Returns-pure none h
authority_addr-Returns (some a) h d = search returns_rules depth 10

to_fresh_backwards-Returns :
    (pub_key : Bytes) (c : Model.CreateAccount) (h : History)
    → IsOk (str_to_addr c.eoa_addr)
    → AuthorityDecodes c.authority
    → IsOk (checked_v c.sig_v)
    → IsOk (str_to_bytes 32 c.sig_r)
    → IsOk (str_to_bytes 32 c.sig_s)
    → Returns (create_account_to_fresh_backwards_graph pub_key c) h
unfolding create_account_to_fresh_backwards_graph
to_fresh_backwards-Returns pub_key c h eoa authority v r s =
    search (returns_rules, authority_addr-Returns) depth 20

module _ (x : Externals) (all : IsCooperative x) where
  tag_mint-Returns :
      (r : Config) (f : FreshBackwards) (eoa : Bytes) (mint : Option Model.Mint) (h : History)
      → MintDecodes mint
      → Returns (tag_mint x r f eoa mint) h
  unfolding tag_mint tag_fresh_backwards_with_mint_graph
  tag_mint-Returns r f eoa none h d = Returns-pure f h
  tag_mint-Returns r f eoa (some m) h (o, a, market, referrer, t, p) = Returns-wrap _ _ h (
      Returns-bind _ _ h (mint_graph-Returns x all _ _ _ _ _ _ _ _ _ h o a market referrer t p)
        λ made h₁. Returns-pure _ h₁)

  -- When the outside answers to what it should, the creation of an account whose texts decode, with or without a mint
  -- whose texts decode, returns a hash and a secret, as a dry run or not, whatever happened before.
  pub create_account_exec-Returns :
      (r : Config) (ctx : Context) (c : Model.CreateAccount) (mint : Option Model.Mint)
      (dryrun : Option Bool) (h : History)
      → IsValidAccount x c mint
      → Returns (create_account_exec x r ctx c mint dryrun) h
  unfolding create_account_exec
  create_account_exec-Returns r ctx c mint dryrun h valid =
      Returns-bind _ _ h
        (Returns-wrap _ _ h (
          to_fresh_backwards-Returns r.acc_pub_key c h valid.eoa_decodes valid.authority_decodes
            valid.v_decodes valid.r_decodes valid.s_decodes))
        λ f0 h₁. Returns-bind _ _ h₁ (Returns-refuse_if _ _ h₁ (rw valid.is_address refl)) λ u₂ h₂.
          Returns-bind _ _ h₂ (tag_mint-Returns r f0 _ mint h₂ valid.mint_decodes) λ f h₃.
            Returns-bind_with _ _ h₃ (Returns-on_error _ _ h₃ (pick_private_key-Returns x all h₃))
              λ key h₄ picked.
                let (s, known_key) =
                  pick_private_key-Returned x (on_error-Returned _ _ (λ e. exit-never _) picked) in
                Returns-bind _ _ h₄
                  (Returns-on_error _ _ h₄
                    (send_arguments-Returns x all _ _ _ _ _ _ _ _ h₄ s known_key))
                  λ sent h₅.
                    Returns-bind_with _ _ h₅ (make_secret-Returns x h₅ (all.random h₅))
                      λ secret h₆ drawn.
                        Returns-bind _ _ h₆
                          (Returns-when _ _ h₆ (
                            Returns-bind _ _ h₆
                              (insert-Returns x r _ h₆
                                (all.stores _ secret h₆ (make_secret-Returned x drawn).1))
                              λ u h₇. track_tx-Returns x _ _ _ _ h₇))
                          λ u₈ h₈. Returns-pure _ h₈
