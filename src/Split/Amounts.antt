-- ===== src/Split/Amounts.antt =====
-- `split_parts` of miriam_agent/hands/split.py.
use miriam.Prelude.{◌≡◌, refl, arith, int_laws, ℤ, pos, negsuc, ◌+ℤ◌, ◌*ℤ◌, ◌≤ℤ◌}
use miriam.Decimal.{Decimal, money, whole, percent_of}
use miriam.Ledger.{Track, default_track}
use miriam.Split.{split_parts}

-- The parts reconcile to the inflow, to the cent, for every amount and every track.
pub split_parts_reconcile :
    (t : Track) (a : Decimal)
    → let p = split_parts t a in p.spendable +ℤ p.savings +ℤ p.yield_ ≡ money a
unfolding split_parts
split_parts_reconcile t a = omega int_laws

-- thirty percent of an amount in cents, and nought percent
thirty_percent :
    (c : ℤ) → pos 0 ≤ℤ c → let m = money (percent_of c (whole (pos 30))) in (pos 0 ≤ℤ m) × (m ≤ℤ c)
unfolding money percent_of ◌*ℤ◌
thirty_percent (pos c) h = ground arith
thirty_percent (negsuc c) h = absurd (omega arith)

nought_percent : (c : ℤ) → money (percent_of c (whole (pos 0))) ≡ pos 0
unfolding money percent_of ◌*ℤ◌
nought_percent (pos c) = ground arith
nought_percent (negsuc c) = ground arith

-- On the default track no part of a nonnegative inflow is negative.
pub split_parts-default :
    (a : Decimal)
    → pos 0 ≤ℤ money a
    → let p = split_parts default_track a in
      (pos 0 ≤ℤ p.spendable) × (pos 0 ≤ℤ p.savings) × (p.yield_ ≡ pos 0)
unfolding split_parts
split_parts-default a h =
    let t = thirty_percent (money a) h in
    rw (nought_percent (money a)) (omega (int_laws, t), t.0, refl)
