-- ===== src/Go/BigInt.antt =====
-- math/big, as far as the program uses it, and the decimal print of a number.
use accounts_superposition_s.Prelude.{
  ℕ, zero, suc, ◌+◌, ◌-◌, ◌*◌, ◌/◌, ◌%◌, Bytes, [], ◌∷◌, ◌++◌, Option, none, some, leb, ◌==◌, ◌&&◌,
  if◌then◌else◌, ℤ, pos, negsuc,
}

-- The digits after the sign, in base 10, to the end of the text.
unfoldable pub digits : ℕ → Bytes → Option ℕ
digits n [] = some n
digits n (c ∷ s) = if leb b'0' c && leb c b'9' then digits (n * 10 + (c - b'0')) s else none

-- at least one digit
unfoldable pub natural : Bytes → Option ℕ
unfolding digits
natural [] = none
natural (c ∷ s) = digits 0 (c ∷ s)

abbrev pub negate : Option ℕ → Option ℤ
negate none = none
negate (some zero) = some (pos 0)
negate (some (suc n)) = some (negsuc n)

abbrev pub positive : Option ℕ → Option ℤ
positive none = none
positive (some n) = some (pos n)

-- `new(big.Int).SetString(s, 10)`: one sign at most, then decimal digits
unfoldable pub set_string : Bytes → Option ℤ
unfolding natural
set_string [] = none
set_string (c ∷ s) =
    if c == b'-'
    then negate (natural s)
    else if c == b'+'
    then positive (natural s)
    else positive (natural (c ∷ s))

-- The bytes of a number, the highest first, with no leading zero. The fuel is a bound on the rounds.
unfoldable pub big_bytes_fuel : ℕ → ℕ → Bytes
big_bytes_fuel zero n = []
big_bytes_fuel (suc f) n =
    let rest = big_bytes_fuel f (n / 256) in if n == 0 then [] else rest ++ n % 256 ∷ []

-- `x.Bytes()`, of the absolute value of `x`
unfoldable pub big_bytes : ℕ → Bytes
unfolding big_bytes_fuel
big_bytes n = big_bytes_fuel n n

abbrev pub set_bytes_from : ℕ → Bytes → ℕ
set_bytes_from n [] = n
set_bytes_from n (b ∷ bs) = set_bytes_from (n * 256 + b) bs

-- `new(big.Int).SetBytes(b)`
unfoldable pub set_bytes : Bytes → ℕ
set_bytes = set_bytes_from 0

unfoldable pub itoa_fuel : ℕ → ℕ → Bytes
itoa_fuel zero n = []
itoa_fuel (suc f) n =
    let rest = itoa_fuel f (n / 10) in if n == 0 then [] else rest ++ (b'0' + n % 10) ∷ []

-- the decimal print of a number
unfoldable pub itoa : ℕ → Bytes
unfolding itoa_fuel
itoa n = if n == 0 then b'0' ∷ [] else itoa_fuel n n

unfoldable pub int_text : ℤ → Bytes
unfolding itoa
int_text (pos n) = itoa n
int_text (negsuc n) = b'-' ∷ itoa (suc n)
