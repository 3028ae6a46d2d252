-- ===== src/Model/Asset.antt =====
-- graph/model/models_gen.go: the enumeration of assets, a type of strings.
use accounts_superposition_s.Prelude.{
  ◌≡◌, refl, Bool-cases, inl, inr, Bytes, codes, List, [], ◌∷◌, Bool, ◌||◌, not, bytes_eq, Option,
  none, some, if◌then◌else◌,
}
use accounts_superposition_s.Outcome.{note, bytes, ◌◂◌, Outcome, ok, err, panic, fatal}

abbrev pub asset_usdc : Bytes
asset_usdc = codes "USDC"

abbrev pub asset_arb : Bytes
asset_arb = codes "ARB"

abbrev pub asset_weth : Bytes
asset_weth = codes "WETH"

abbrev pub all_asset : List Bytes
all_asset = asset_usdc ∷ asset_arb ∷ asset_weth ∷ []

unfoldable pub is_valid : Bytes → Bool
is_valid e = bytes_eq e asset_usdc || bytes_eq e asset_arb || bytes_eq e asset_weth

-- `String`
abbrev pub asset_string : Bytes → Bytes
asset_string e = e

-- The receiver after the call, and the error. The argument is a string or, as none, something else;
-- a string that is no asset is stored too.
unfoldable pub unmarshal_gql : Bytes → Option Bytes → Bytes × Outcome (Unit {0})
unfolding is_valid
unmarshal_gql e none = (e, err (note "enums must be strings"))
unmarshal_gql e (some str) =
    if not (is_valid str)
    then (str, err (bytes str ◂ note " is not a valid Asset"))
    else (str, ok tt)

-- An error of `Unquote` leaves the receiver as it is.
abbrev pub from_unquoted : Bytes → Outcome Bytes → Bytes × Outcome (Unit {0})
from_unquoted e (ok s) = unmarshal_gql e (some s)
from_unquoted e (err failure) = (e, err failure)
from_unquoted e panic = (e, panic)
from_unquoted e (fatal failure) = (e, fatal failure)

-- `strconv.Quote` and `strconv.Unquote`
module _ (quote : Bytes → Bytes) (unquote : Bytes → Outcome Bytes) where
  unfoldable pub marshal_gql : Bytes → Bytes
  marshal_gql e = quote (asset_string e)

  unfoldable pub unmarshal_json : Bytes → Bytes → Bytes × Outcome (Unit {0})
  unfolding unmarshal_gql
  unmarshal_json e b = from_unquoted e (unquote b)

  unfoldable pub marshal_json : Bytes → Outcome Bytes
  unfolding marshal_gql
  marshal_json e = ok (marshal_gql e)

  -- What an asset is printed as is read back, if `Unquote` undoes `Quote`, and a text that is no asset
  -- is refused.
  pub unmarshal_json-marshal_json :
      (old e : Bytes)
      → unquote (quote e) ≡ ok e
      → unmarshal_json old (quote e)
        ≡ (e, if is_valid e then ok tt else err (bytes e ◂ note " is not a valid Asset"))
  unfolding unmarshal_json unmarshal_gql
  unmarshal_json-marshal_json old e undone = elim (Bool-cases (is_valid e)) [
    | inl valid ↦ rw (undone, valid) refl
    | inr invalid ↦ rw (undone, invalid) refl
  ]
