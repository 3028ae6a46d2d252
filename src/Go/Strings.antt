-- ===== src/Go/Strings.antt =====
-- strings, on the bytes of the text
use accounts_superposition_s.Prelude.{
  ℕ, ◌+◌, Bytes, List, [], ◌∷◌, ◌++◌, map, Bool, true, false, ◌&&◌, ◌||◌, leb, ◌==◌, if◌then◌else◌,
  length, drop,
}

-- `HasPrefix(s, p)`
unfoldable pub has_prefix : Bytes → Bytes → Bool
has_prefix s [] = true
has_prefix [] (c ∷ p) = false
has_prefix (d ∷ s) (c ∷ p) = d == c && has_prefix s p

-- `TrimPrefix(s, p)`
unfoldable pub trim_prefix : Bytes → Bytes → Bytes
unfolding has_prefix
trim_prefix s p = if has_prefix s p then drop (length p) s else s

-- `Contains(s, sub)`
unfoldable pub contains_str : Bytes → Bytes → Bool
unfolding has_prefix
contains_str [] sub = has_prefix [] sub
contains_str (c ∷ s) sub = has_prefix (c ∷ s) sub || contains_str s sub

unfoldable pub lower : ℕ → ℕ
lower c = if leb b'A' c && leb c b'Z' then c + 32 else c

-- `ToLower(s)`, of an ASCII text
unfoldable pub to_lower : Bytes → Bytes
unfolding lower
to_lower = map lower

-- `Split(s, sep)` at a separator of one byte
unfoldable pub split_from : ℕ → Bytes → Bytes → List Bytes
split_from sep cur [] = cur ∷ []
split_from sep cur (c ∷ s) = elim (c == sep) [
  | true ↦ cur ∷ split_from sep [] s
  | false ↦ split_from sep (cur ++ c ∷ []) s
]

unfoldable pub split_on : ℕ → Bytes → List Bytes
unfolding split_from
split_on sep = split_from sep []
