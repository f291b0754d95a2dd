-- ===== src/Decimal/Rounding.antt =====
-- `money` of miriam_agent/hands/ledger.py.
use native.Mathlib.Nat.{pow-suc, div-add-mod, mod-lt}
use miriam.Prelude.{
  ℕ, zero, suc, ◌+◌, ◌*◌, ◌^◌, ◌≤◌, ◌<◌, ◌≡◌, ℤ, pos, negsuc, pos_part, neg_part, arith,
}
use miriam.Decimal.{Decimal, money, cents, round_half_up, neg_ℕ}

-- Rounding whole cents to cents changes nothing.
pub money-cents : (c : ℤ) → money (cents c) ≡ c
unfolding money
money-cents (pos n) = ground arith
money-cents (negsuc n) = ground arith

pub pow_pos : (p : ℕ) → 0 < 10 ^ p
pow_pos zero = omega arith
pow_pos (suc p) = omega (arith, pow_pos p, pow-suc 10 p)

-- Twice the distance from a rounded quotient to the exact one is at most the divisor.
round_half_up_near :
    (n d : ℕ)
    → 0 < d
    → (2 * (round_half_up n d * d) ≤ 2 * n + d) × (2 * n ≤ 2 * (round_half_up n d * d) + d)
unfolding round_half_up
round_half_up_near n d h =
    grind (arith, div-add-mod (2 * n + d) (2 * d), mod-lt (2 * n + d) {m = 2 * d} (omega arith))

neg_ℕ_parts : (n : ℕ) → (pos_part (neg_ℕ n) ≡ 0) × (neg_part (neg_ℕ n) ≡ n)
neg_ℕ_parts n = ground arith

-- the two bounds of `money_near` on one sign
abbrev Near : ℕ → ℕ → ℕ → Type 0
Near m c u = (2 * (m * u) ≤ 2 * (c * 100) + u) × (2 * (c * 100) ≤ 2 * (m * u) + u)

money-Near_at :
    (c : ℤ) (p : ℕ)
    → let m = money (record { coef = c; places = p }) in
      Near (pos_part m) (pos_part c) (10 ^ p) × Near (neg_part m) (neg_part c) (10 ^ p)
unfolding money
money-Near_at (pos n) p =
    (round_half_up_near (n * 100) (10 ^ p) (pow_pos p), (omega arith, omega arith))
money-Near_at (negsuc n) p =
    let r = round_half_up (suc n * 100) (10 ^ p) in
    rw ((neg_ℕ_parts r).0, (neg_ℕ_parts r).1)
      ((omega arith, omega arith), round_half_up_near (suc n * 100) (10 ^ p) (pow_pos p))

-- An amount and its cents have the same sign and differ by at most half a cent: on the positive and
-- on the negative part, twice the difference is at most one cent, in units of the last place.
money_near :
    (d : Decimal)
    → let u = 10 ^ d.places in
      (2 * (pos_part (money d) * u) ≤ 2 * (pos_part d.coef * 100) + u)
      × (2 * (pos_part d.coef * 100) ≤ 2 * (pos_part (money d) * u) + u)
      × (2 * (neg_part (money d) * u) ≤ 2 * (neg_part d.coef * 100) + u)
      × (2 * (neg_part d.coef * 100) ≤ 2 * (neg_part (money d) * u) + u)
money_near d = let h = money-Near_at d.coef d.places in (h.0.0, h.0.1, h.1.0, h.1.1)

-- An amount above nought that is no more than some cents rounds to no more than them.
pub round_half_up-le : (n d c : ℕ) → 0 < d → n ≤ c * d → round_half_up n d ≤ c
unfolding round_half_up
round_half_up-le n d c h k =
    grind (arith, div-add-mod (2 * n + d) (2 * d), mod-lt (2 * n + d) {m = 2 * d} (omega arith))
