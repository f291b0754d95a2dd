-- ===== src/Decimal.antt =====
-- Amounts: Python's `Decimal` as an exact coefficient and a number of decimal places, and `money`
-- of miriam_agent/hands/ledger.py, which rounds one to whole cents. Cents are integers.
pub mod Rounding
use miriam.Prelude.{
  ℕ, suc, ◌+◌, ◌*◌, ◌/◌, ◌^◌, ℤ, pos, negsuc, ◌+ℤ◌, ◌*ℤ◌, Bool, ltb_ℤ, leb_ℤ, pos_part, neg_part,
  sub_ℕ,
}

-- coef * 10 ^ -places
pub record Decimal : Type 0 where
  pub coef : ℤ
  pub places : ℕ

-- n / d rounded to the nearest whole number, a half going up
unfoldable pub round_half_up : ℕ → ℕ → ℕ
round_half_up n d = (2 * n + d) / (2 * d)

abbrev pub neg_ℕ : ℕ → ℤ
neg_ℕ n = sub_ℕ 0 n

-- `money`: `value.quantize(CENTS, rounding=ROUND_HALF_UP)`, which rounds a half away from zero
unfoldable pub money : Decimal → ℤ
unfolding round_half_up
money d = elim d.coef [
  | pos n ↦ pos (round_half_up (n * 100) (10 ^ d.places))
  | negsuc n ↦ neg_ℕ (round_half_up (suc n * 100) (10 ^ d.places))
]

-- a whole number of cents as a Decimal of two places
abbrev pub cents : ℤ → Decimal
cents c = record { coef = c; places = 2 }

-- a whole number as a Decimal
abbrev pub whole : ℤ → Decimal
whole n = record { coef = n; places = 0 }

-- the sum, over a common number of places
unfoldable pub add : Decimal → Decimal → Decimal
add a b = record {
  coef = a.coef *ℤ pos (10 ^ b.places) +ℤ b.coef *ℤ pos (10 ^ a.places);
  places = a.places + b.places;
}

-- `amount * ratio / Decimal("100")` for an amount in cents
unfoldable pub percent_of : ℤ → Decimal → Decimal
percent_of c r = record { coef = c *ℤ r.coef; places = r.places + 4 }

-- `a < b` and `a <= b`, by value
unfoldable pub ltb_dec : Decimal → Decimal → Bool
unfolding ◌*ℤ◌
ltb_dec a b = ltb_ℤ (a.coef *ℤ pos (10 ^ b.places)) (b.coef *ℤ pos (10 ^ a.places))

unfoldable pub leb_dec : Decimal → Decimal → Bool
unfolding ◌*ℤ◌
leb_dec a b = leb_ℤ (a.coef *ℤ pos (10 ^ b.places)) (b.coef *ℤ pos (10 ^ a.places))
