-- ===== src/Graph/Live.antt =====
-- A valid mint goes through when the outside answers.
use accounts_superposition_s.Prelude.{
  ◌^◌, ◌<◌, ◌≡◌, refl, Bytes, Bool, true, false, Option, some, ℤ, nat_abs,
}
use accounts_superposition_s.Outcome.{ok}
use accounts_superposition_s.Exec.{pure}
use accounts_superposition_s.Exec.Progress.{
  IsOk, Returns, Returns-pure, Returns-bind, Returns-bind_at, Returns-on_error, Returns-refuse_if,
  Returns-when, Returns-wrap,
}
use accounts_superposition_s.Exec.Onward.{Returns-bind_with}
use accounts_superposition_s.Go.{set_string, copy, big_bytes}
use accounts_superposition_s.Types.{zeros}
use accounts_superposition_s.Model
use accounts_superposition_s.World.{History, Externals}
use accounts_superposition_s.Cooperation.{IsCooperative}
use accounts_superposition_s.Convertor.{str_to_bytes, str_to_addr, ms_ts_left}
use accounts_superposition_s.Convertor.AmountLaws.{amount_bytes_small}
use accounts_superposition_s.Convertor.Progress.{
  PermitDecodes, create_solve_v2-Returns, mint_graph-Returns,
}
use accounts_superposition_s.Client.Progress.{send_arguments-Returns}
use accounts_superposition_s.Graph.Resolver.{Config, Context, authed_of}
use accounts_superposition_s.Graph.Steps.{track_tx-Returns, picked_key-Returns, picked_key-Returned}
use accounts_superposition_s.Graph.Send.{above, check_minimum, context_eoa, ninelives_mint}

-- A request for a mint that the server has no reason to refuse.
pub record IsValidMint (r : Config) (ctx : Context) (mint : Model.Mint) : Type 0 where
  pub enabled : r.feature_mint_disabled ≡ false
  pub authed : authed_of ctx ≡ true
  pub eoa : Bytes
  pub user : ctx.eoa ≡ some eoa
  pub amount : ℤ
  pub amount_read : set_string mint.amount ≡ some amount
  pub enough : above r.minimum_amount amount ≡ false
  pub fits : nat_abs amount < 256 ^ 32
  pub outcome_decodes : IsOk (str_to_bytes 8 mint.outcome)
  pub market_decodes : IsOk (str_to_addr mint.market)
  pub referrer_decodes : IsOk (str_to_addr mint.referrer)
  pub ms_ts : ℤ
  pub ms_ts_read : set_string mint.ms_ts ≡ some ms_ts
  pub permit_decodes : PermitDecodes mint.permit

check_minimum-Returns :
    (m : ℤ) (o : Option ℤ) (z : ℤ) (h : History)
    → o ≡ some z
    → above m z ≡ false
    → Returns (check_minimum m o) h
unfolding check_minimum
check_minimum-Returns m o z h e enough = rw e (Returns-refuse_if _ _ h enough)

context_eoa-ok :
    (o : Option Bytes) (eoa : Bytes) (h : History) → o ≡ some eoa → (context_eoa o h).0 ≡ ok eoa
unfolding context_eoa pure
context_eoa-ok o eoa h e = rw e refl

ms_ts_left-IsOk : (s : Bytes) (z : ℤ) → set_string s ≡ some z → IsOk (ms_ts_left s)
unfolding ms_ts_left
ms_ts_left-IsOk s z e = (copy (zeros 16) (big_bytes (nat_abs z)), rw e refl)

module _ (x : Externals) (all : IsCooperative x) where
  -- When the outside answers to what it should, a mint that the server has no reason to refuse returns a hash, as a
  -- dry run or not, whatever happened before.
  pub ninelives_mint-Returns :
      (r : Config) (ctx : Context) (mint : Model.Mint) (dryrun : Option Bool) (h : History)
      → IsValidMint r ctx mint
      → Returns (ninelives_mint x r ctx mint dryrun) h
  unfolding ninelives_mint
  ninelives_mint-Returns r ctx mint dryrun h valid =
      let (word, word_read, is_array, value) =
        amount_bytes_small mint.amount valid.amount valid.amount_read valid.fits in
      Returns-bind _ _ h (Returns-refuse_if _ _ h valid.enabled) λ u₁ h₁.
        Returns-bind _ _ h₁ (check_minimum-Returns _ _ _ h₁ valid.amount_read valid.enough) λ u₂ h₂.
          Returns-bind _ _ h₂ (Returns-refuse_if _ _ h₂ (rw valid.authed refl)) λ u₃ h₃.
            Returns-bind_at _ _ h₃ valid.eoa (context_eoa-ok _ _ h₃ valid.user) (
              Returns-bind_with _ _ _ (picked_key-Returns x all r _) λ key h₄ picked.
                let (s, known_key) = picked_key-Returned x r picked in
                Returns-bind _ _ h₄
                  (Returns-on_error _ _ h₄ (
                    mint_graph-Returns x all _ _ _ _ _ _ _ _ _ h₄ valid.outcome_decodes
                      (word, word_read) valid.market_decodes valid.referrer_decodes
                      (ms_ts_left-IsOk mint.ms_ts valid.ms_ts valid.ms_ts_read)
                      valid.permit_decodes))
                  λ f h₅.
                    Returns-bind _ _ h₅
                      (Returns-wrap _ _ h₅ (create_solve_v2-Returns x all _ _ _ _ h₅))
                      λ solve h₆.
                        Returns-bind _ _ h₆
                          (Returns-on_error _ _ h₆
                            (send_arguments-Returns x all _ _ _ _ _ _ _ _ h₆ s known_key))
                          λ sent h₇.
                            Returns-bind _ _ h₇
                              (Returns-when _ _ h₇ (track_tx-Returns x _ _ _ _ h₇))
                              λ u₈ h₈. Returns-pure _ h₈)
