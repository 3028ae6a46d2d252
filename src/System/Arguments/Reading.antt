-- ===== src/System/Arguments/Reading.antt =====
-- When the arguments of a field are accepted, and as what.
use accounts_superposition_s.Prelude.{
  ◌≡◌, refl, ap, sym, ◌∙◌, ◌↔◌, ℕ, suc, Bytes, List, [], ◌∷◌, Bool, Option, none, some, ℤ, pos,
}
use accounts_superposition_s.Outcome.{Outcome, ok, ok-injective, bind-ok, ◌>>=◌}
use accounts_superposition_s.Go.{itoa}
use accounts_superposition_s.Model
use accounts_superposition_s.Graph.Inputs.{
  Raw, null, object, scalar, RawMap, unmarshal_n_string, unmarshal_n_int, unmarshal_input_mint,
  unmarshal_input_create_account,
}
use accounts_superposition_s.Graph.Inputs.Keys.{
  Keyed, Text, Number, IsMintMap, at_key_iff, replied_iff,
}
use accounts_superposition_s.Graph.Inputs.Read.{on_path-ok, mint_iff, account_iff}
use accounts_superposition_s.System.Arguments.{
  Runtime, strings_from, unmarshal_o_boolean, unmarshal_n_mint, unmarshal_o_mint,
  unmarshal_n_create_account,
}
use accounts_superposition_s.System.Arguments.Maps.{
  ProcessesArguments, Flag, Each, RequiredMint, OptionalMint, RequiredAccount,
}

optional_iff :
    {A : Type 0} (R : A → Type 0) (out : Outcome A) (o : Option A)
    → ((a : A) → (out ≡ ok a) ↔ R a)
    → ((out >>= λ a. ok (some a)) ≡ ok o) ↔ ((a : A) × (some a ≡ o) × R a)
optional_iff R out o reads = (
  λ q. let (a, e, rest) = bind-ok out q in (a, ok-injective rest, (reads a).0 e),
  λ is. let (a, e, r) = is in rw ((reads a).1 r) (ap ok e),
)

head_eq : {s t : Bytes} {l k : List Bytes} → s ∷ l ≡ t ∷ k → s ≡ t
head_eq e = cc (e)

tail_eq : {s t : Bytes} {l k : List Bytes} → s ∷ l ≡ t ∷ k → l ≡ k
tail_eq e = cc (e)

not_empty : {s : Bytes} {l : List Bytes} → s ∷ l ≡ [] → ⊥
not_empty e = cc (e)

module _ (g : Runtime) where
  pub strings-Each :
      (i : ℕ) (path : List Bytes) (vs : List Raw) (l : List Bytes)
      → (strings_from g i path vs ≡ ok l) ↔ Each g vs l
  unfolding strings_from
  strings-Each i path [] [] = (λ p. tt, λ e. refl)
  strings-Each i path [] (s ∷ l) = (λ p. cc (p), λ e. absurd e)
  strings-Each i path (v ∷ vs) [] = (
    λ p.
        let (s, _, rest) = bind-ok (unmarshal_n_string g.coercion (itoa i ∷ path) v) p in
        let (l, _, last) = bind-ok (strings_from g (suc i) path vs) rest in
        not_empty (ok-injective last),
    λ e. absurd e,
  )
  strings-Each i path (v ∷ vs) (s ∷ l) = (
    λ p.
        let (t, e, rest) = bind-ok (unmarshal_n_string g.coercion (itoa i ∷ path) v) p in
        let (k, e', last) = bind-ok (strings_from g (suc i) path vs) rest in
        let same = ok-injective last in
        (
          (replied_iff g.coercion _ (g.coercion.unmarshal_string v) s).0 (rw (head_eq same) at e),
          (strings-Each (suc i) path vs l).0 (rw (tail_eq same) at e'),
        ),
    λ is. let (read, each) = is in rw (read, (strings-Each (suc i) path vs l).1 each) refl,
  )

  Flag-iff :
      (path : List Bytes) (v : Raw) (o : Option Bool)
      → (unmarshal_o_boolean g path v ≡ ok o) ↔ Flag g v o
  unfolding unmarshal_o_boolean
  Flag-iff path null o = (λ p. ok-injective p, λ e. ap ok e)
  Flag-iff path (scalar s) o =
      optional_iff _ _ o (replied_iff g.coercion path (g.unmarshal_boolean (scalar s)))
  Flag-iff path (object m) o =
      optional_iff _ _ o (replied_iff g.coercion path (g.unmarshal_boolean (object m)))

  pub RequiredMint-iff :
      (path : List Bytes) (v : Raw) (mint : Model.Mint)
      → (unmarshal_n_mint g path v ≡ ok mint) ↔ RequiredMint g v mint
  unfolding unmarshal_input_mint
  RequiredMint-iff path null mint = (λ p. ok-injective p, λ e. ap ok e)
  RequiredMint-iff path (scalar s) mint = (λ p. cc (p), λ e. absurd e)
  RequiredMint-iff path (object m) mint = (
    λ p. (mint_iff g.coercion path m mint).0 (on_path-ok g.coercion path _ mint p),
    λ is. rw ((mint_iff g.coercion path m mint).1 is) refl,
  )

  pub OptionalMint-iff :
      (path : List Bytes) (v : Raw) (o : Option Model.Mint)
      → (unmarshal_o_mint g path v ≡ ok o) ↔ OptionalMint g v o
  unfolding unmarshal_o_mint unmarshal_input_mint
  OptionalMint-iff path null o = (λ p. ok-injective p, λ e. ap ok e)
  OptionalMint-iff path (scalar s) o = (λ p. cc (p), λ e. absurd e)
  OptionalMint-iff path (object m) o =
      optional_iff (IsMintMap g.coercion m) (unmarshal_n_mint g path (object m)) o
        (RequiredMint-iff path (object m))

  pub RequiredAccount-iff :
      (path : List Bytes) (v : Raw) (a : Model.CreateAccount)
      → (unmarshal_n_create_account g path v ≡ ok a) ↔ RequiredAccount g v a
  unfolding unmarshal_input_create_account
  RequiredAccount-iff path null a = (λ p. ok-injective p, λ e. ap ok e)
  RequiredAccount-iff path (scalar s) a = (λ p. cc (p), λ e. absurd e)
  RequiredAccount-iff path (object m) a = (
    λ p. (account_iff g.coercion path m a).0 (on_path-ok g.coercion path _ a p),
    λ is. rw ((account_iff g.coercion path m a).1 is) refl,
  )

  module _ (processes : ProcessesArguments g) (m : RawMap) (path : List Bytes) where
    pub argument_iff :
        {A : Type 0} (zero : A) (key : Bytes) (f : List Bytes → Raw → Outcome A)
        (R : Raw → A → Type 0) (a : A)
        → ((v : Raw) → (f (key ∷ path) v ≡ ok a) ↔ R v a)
        → (g.process_arg_field zero m key f path ≡ ok a) ↔ Keyed m key zero R a
    argument_iff {A} zero key f R a reads =
        let same = processes A zero m key f path in
        let (to, from) = at_key_iff m key zero f path R a reads in
        (λ p. to (sym same ∙ p), λ k. same ∙ from k)

    pub argument-Text :
        (key a : Bytes)
        → (g.process_arg_field [] m key (unmarshal_n_string g.coercion) path ≡ ok a)
          ↔ Keyed m key [] (Text g.coercion) a
    argument-Text key a =
        argument_iff [] key _ (Text g.coercion) a
          (λ v. replied_iff g.coercion _ (g.coercion.unmarshal_string v) a)

    pub argument-Number :
        (key : Bytes) (a : ℤ)
        → (g.process_arg_field (pos 0) m key (unmarshal_n_int g.coercion) path ≡ ok a)
          ↔ Keyed m key (pos 0) (Number g.coercion) a
    argument-Number key a =
        argument_iff (pos 0) key _ (Number g.coercion) a
          (λ v. replied_iff g.coercion _ (g.coercion.unmarshal_int32 v) a)

    pub argument-Flag :
        (key : Bytes) (a : Option Bool)
        → (g.process_arg_field none m key (unmarshal_o_boolean g) path ≡ ok a)
          ↔ Keyed m key none (Flag g) a
    argument-Flag key a = argument_iff none key _ (Flag g) a (λ v. Flag-iff _ v a)
