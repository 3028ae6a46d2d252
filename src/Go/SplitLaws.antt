-- ===== src/Go/SplitLaws.antt =====
-- `Split` and `ToLower`, on texts that are joined at a separator and on hex digits.
use accounts_superposition_s.Prelude.{
  ℕ, ◌≡◌, refl, sym, ◌∙◌, ap, Bytes, [], ◌∷◌, ◌++◌, append_assoc, false, ◌==◌, ==_iff, All, arith,
  IsByte, ◌/◌, ◌%◌, ◌<◌, append-nil,
}
use accounts_superposition_s.Go.Strings.{split_from, split_on, lower, to_lower}
use accounts_superposition_s.Go.Hex.{hex_digit, hex_encode}

-- The text does not have the byte.
abbrev pub Without : ℕ → Bytes → Type 0
Without sep s = All (λ c. (c == sep) ≡ false) s

split_from-other :
    (sep c : ℕ) (cur s : Bytes)
    → (c == sep) ≡ false
    → split_from sep cur (c ∷ s) ≡ split_from sep (cur ++ c ∷ []) s
unfolding split_from
split_from-other sep c cur s w = rw (split_from, w) refl

split_from-here :
    (sep : ℕ) (cur s : Bytes) → split_from sep cur (sep ∷ s) ≡ cur ∷ split_from sep [] s
unfolding split_from
split_from-here sep cur s = rw (split_from, (==_iff sep sep).1 refl) refl

split_from-last : (sep : ℕ) (cur s : Bytes) → Without sep s → split_from sep cur s ≡ (cur ++ s) ∷ []
unfolding split_from
split_from-last sep cur [] w = ap (λ t. t ∷ []) (sym (append-nil cur))
split_from-last sep cur (c ∷ s) (w, ws) =
    split_from-other sep c cur s w
    ∙ (split_from-last sep (cur ++ c ∷ []) s ws ∙ ap (λ t. t ∷ []) (append_assoc cur (c ∷ []) s))

split_from-join :
    (sep : ℕ) (cur a b : Bytes)
    → Without sep a
    → Without sep b
    → split_from sep cur (a ++ sep ∷ b) ≡ (cur ++ a) ∷ b ∷ []
unfolding split_from
split_from-join sep cur [] b wa wb =
    split_from-here sep cur b
    ∙ ap (λ t. cur ∷ t) (split_from-last sep [] b wb)
    ∙ ap (λ t. t ∷ b ∷ []) (sym (append-nil cur))
split_from-join sep cur (c ∷ a) b (w, wa) wb =
    split_from-other sep c cur (a ++ sep ∷ b) w
    ∙ (split_from-join sep (cur ++ c ∷ []) a b wa wb
        ∙ ap (λ t. t ∷ b ∷ []) (append_assoc cur (c ∷ []) a))

-- Two texts without the separator, joined by it, are split again.
pub split_on-join :
    (sep : ℕ) (a b : Bytes)
    → Without sep a
    → Without sep b
    → split_on sep (a ++ sep ∷ b) ≡ a ∷ b ∷ []
unfolding split_on
split_on-join sep a b wa wb = split_from-join sep [] a b wa wb

lower-hex_digit : (n : ℕ) → n < 16 → lower (hex_digit n) ≡ hex_digit n
unfolding lower hex_digit
lower-hex_digit n h = ground arith

pub to_lower-hex_encode : (s : Bytes) → All IsByte s → to_lower (hex_encode s) ≡ hex_encode s
unfolding to_lower hex_encode
to_lower-hex_encode [] h = refl
to_lower-hex_encode (b ∷ s) (hb, hs) =
    rw
      (
        lower-hex_digit (b / 16) (omega arith),
        lower-hex_digit (b % 16) (omega arith),
        to_lower-hex_encode s hs,
      )
      refl

hex_digit-Without : (n : ℕ) → n < 16 → (hex_digit n == b':') ≡ false
unfolding hex_digit
hex_digit-Without n h = ground arith

pub hex_encode-Without : (s : Bytes) → All IsByte s → Without b':' (hex_encode s)
unfolding hex_encode
hex_encode-Without [] h = tt
hex_encode-Without (b ∷ s) (hb, hs) = (
  hex_digit-Without (b / 16) (omega arith),
  (hex_digit-Without (b % 16) (omega arith), hex_encode-Without s hs),
)
