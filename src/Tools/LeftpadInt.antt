-- ===== src/Tools/LeftpadInt.antt =====
-- tools/leftpad-int/main.go: a decimal number as the hex digits of a word of 32 bytes.
use accounts_superposition_s.Prelude.{
  ℕ, ◌-◌, ◌≡◌, refl, Bytes, List, [], ◌∷◌, ◌++◌, Option, none, some, length, ltb, ltb-false,
  Bool-cases, inl, inr, if◌then◌else◌, ℤ, nat_abs,
}
use accounts_superposition_s.Outcome.{Outcome, ok, err, panic, fatal, ◌>>=◌}
use accounts_superposition_s.Go.{set_string, big_bytes, hex_encode}
use accounts_superposition_s.Go.CopyLaws.{copy_from_right}
use accounts_superposition_s.Types.{zeros}
use accounts_superposition_s.Convertor.{amount_bytes}
use accounts_superposition_s.Tools.Command.{argument, must_some}

-- `make([]byte, 32-len(b))` panics on a negative length.
unfoldable pub make : ℕ → ℕ → Outcome Bytes
make n used = if ltb n used then panic else ok (zeros (n - used))

unfoldable pub leftpad_int : List Bytes → Outcome Bytes
unfolding argument make
leftpad_int args = do
  a ← argument 1 args
  v ← must_some (set_string a)
  let b = big_bytes (nat_abs v)
  c ← make 32 (length b)
  ok (hex_encode (c ++ b) ++ 10 ∷ [])

-- What the tool prints for the bytes that the server reads of an amount.
abbrev pub line_of : Outcome Bytes → Outcome Bytes
line_of (ok b) = ok (hex_encode b ++ 10 ∷ [])
line_of (err e) = panic
line_of panic = panic
line_of (fatal e) = panic

leftpad_int-line_of :
    (a : Bytes) (o : Option ℤ)
    → set_string a ≡ o
    → leftpad_int ([] ∷ a ∷ []) ≡ line_of (amount_bytes a)
unfolding leftpad_int argument make amount_bytes
leftpad_int-line_of a none e = rw e refl
leftpad_int-line_of a (some z) e = elim (Bool-cases (ltb 32 (length (big_bytes (nat_abs z))))) [
  | inl big ↦ rw (e, big) refl
  | inr fits ↦ rw (e, fits, copy_from_right 32 (big_bytes (nat_abs z)) (ltb-false _ _ fits)) refl
]

-- The tool and the server read an amount alike: for an argument that the server accepts, the tool
-- prints the word that the server encodes, in hex on a line, and it panics for the others.
pub leftpad_int-amount_bytes :
    (name a : Bytes) (more : List Bytes) → leftpad_int (name ∷ a ∷ more) ≡ line_of (amount_bytes a)
unfolding leftpad_int argument
leftpad_int-amount_bytes name a more = leftpad_int-line_of a (set_string a) refl
