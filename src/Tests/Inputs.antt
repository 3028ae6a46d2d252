-- ===== src/Tests/Inputs.antt =====
-- The inputs of a request that names a mint and leaves out its referrer.
use accounts_superposition_s.Prelude.{
  ◌≡◌, ◌↔◌, refl, bytes_eq, Bytes, codes, [], ◌∷◌, true, Option, none, some, ℤ,
}
use accounts_superposition_s.Outcome.{ok}
use accounts_superposition_s.Go.{set_string}
use accounts_superposition_s.World.{Reply, answer, failed}
use accounts_superposition_s.Graph.Inputs.{
  Raw, null, object, scalar, RawMap, empty, entry, Coercion, at_key, value_at, unmarshal_o_permit,
  unmarshal_input_mint, unmarshal_input_create_account,
}
use accounts_superposition_s.Graph.Inputs.Keys.{IsMintMap, IsAccountMap}
use accounts_superposition_s.Graph.Inputs.Read.{inputs_iff}
use accounts_superposition_s.System.Requests.{mints}
use accounts_superposition_s.System.Arguments.{
  Runtime, read_mutation, field_mutation_ninelives_mint_args,
}
use accounts_superposition_s.System.Arguments.Maps.{Kind, ProcessesArguments, IsArgumentsOf}
use accounts_superposition_s.System.Arguments.Accepted.{read_root, arguments_iff}
use accounts_superposition_s.Tests.Fixture.{mint, new_account}

abbrev number_or : Option ℤ → Reply ℤ
number_or none = failed (codes "no number")
number_or (some z) = answer z

abbrev text_of : Raw → Reply Bytes
text_of null = failed (codes "nil")
text_of (object m) = failed (codes "a map")
text_of (scalar s) = answer s

abbrev number_of : Raw → Reply ℤ
number_of null = failed (codes "nil")
number_of (object m) = failed (codes "a map")
number_of (scalar s) = number_or (set_string s)

abbrev coercion : Coercion
coercion = record {
  unmarshal_string = text_of;
  unmarshal_int32 = number_of;
  error_on_path = λ path e. e;
}

abbrev mint_map : RawMap
mint_map = entry (codes "market") (scalar mint.market) (
    entry (codes "outcome") (scalar mint.outcome) (
      entry (codes "amount") (scalar mint.amount)
        (entry (codes "permit") null (entry (codes "ms_ts") (scalar mint.ms_ts) empty))))

inputs_iff_example :
    ((unmarshal_input_mint coercion (codes "mint" ∷ []) (object mint_map) ≡ ok mint)
      ↔ IsMintMap coercion mint_map mint)
    × ((unmarshal_input_create_account coercion (codes "mint" ∷ []) (object mint_map)
          ≡ ok new_account)
        ↔ IsAccountMap coercion mint_map new_account)
inputs_iff_example = inputs_iff coercion (codes "mint" ∷ []) mint_map mint new_account

mint_is_read : unmarshal_input_mint coercion (codes "mint" ∷ []) (object mint_map) ≡ ok mint
unfolding unmarshal_input_mint at_key value_at unmarshal_o_permit bytes_eq
mint_is_read = refl

-- gqlgen as documented, where a list is one value.
abbrev runtime : Runtime
runtime = record {
  coercion = coercion;
  unmarshal_boolean = λ v. answer true;
  coerce_list = λ v. v ∷ [];
  process_arg_field = λ zero m key f path. at_key m key zero f path;
}

runtime-ProcessesArguments : ProcessesArguments runtime
runtime-ProcessesArguments A zero m key f path = refl

abbrev arguments : RawMap
arguments = entry (codes "mint") (object mint_map) empty

arguments_iff_example :
    (read_root runtime Kind.mutation (codes "ninelivesMint") [] arguments
      ≡ ok (some (mints mint none)))
    ↔ IsArgumentsOf runtime arguments (mints mint none)
arguments_iff_example =
    arguments_iff runtime runtime-ProcessesArguments arguments [] (mints mint none)

mint_is_requested :
    read_root runtime Kind.mutation (codes "ninelivesMint") [] arguments
    ≡ ok (some (mints mint none))
unfolding read_mutation field_mutation_ninelives_mint_args unmarshal_input_mint at_key value_at
    unmarshal_o_permit bytes_eq
mint_is_requested = refl
