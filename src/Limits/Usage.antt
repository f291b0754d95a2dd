-- ===== src/Limits/Usage.antt =====
-- What the daily and the weekly cap of miriam_agent/hands/limits.py are measured against.
use miriam.Prelude.{
  ◌≡◌, ◌≤◌, ◌<◌, ℕ, pos, ◌+ℤ◌, ◌≤ℤ◌, int_laws, arith, true, List, [], ◌∷◌, ◌++◌, if◌then◌else◌,
  length, keep_last-short, length-append,
}
use miriam.Audit.{Receipt}
use miriam.Ledger.{Ledger, remember_receipt, receipt_retention}
use miriam.Limits.{
  Zone, is_settled, amount_of, sum_settled, settled_outbound_since, daily_usage, weekly_usage,
  day_start, week_start,
}

-- Every amount on a receipt is at least zero.
abbrev pub AllNonNeg : List Receipt → Type 0
AllNonNeg [] = Unit {0}
AllNonNeg (r ∷ rs) = (pos 0 ≤ℤ amount_of r.amount) × AllNonNeg rs

is_settled_mono : (s t : ℕ) (r : Receipt) → s ≤ t → is_settled t r ≡ true → is_settled s r ≡ true
unfolding is_settled
is_settled_mono s t r h e = ground arith

sum_settled_mono :
    (s t : ℕ) (rs : List Receipt) → s ≤ t → AllNonNeg rs → sum_settled t rs ≤ℤ sum_settled s rs
unfolding sum_settled
sum_settled_mono s t [] h n = omega arith
sum_settled_mono s t (r ∷ rs) h n =
    grind (int_laws, is_settled_mono s t r h, sum_settled_mono s t rs h n.1)

-- The weekly usage is at least the daily usage, if the week starts no later than the day and no
-- receipt has a negative amount.
pub daily_usage-le-weekly_usage :
    (z : Zone) (l : Ledger) (at : ℕ)
    → week_start z at ≤ day_start z at
    → AllNonNeg l.receipts
    → daily_usage z l at ≤ℤ weekly_usage z l at
unfolding daily_usage weekly_usage settled_outbound_since
daily_usage-le-weekly_usage z l at h n =
    omega (int_laws, sum_settled_mono (week_start z at) (day_start z at) l.receipts h n)

sum_settled-append :
    (since : ℕ) (rs : List Receipt) (r : Receipt)
    → sum_settled since (rs ++ (r ∷ []))
      ≡ sum_settled since rs +ℤ (if is_settled since r then amount_of r.amount else pos 0)
unfolding sum_settled
sum_settled-append since [] r = grind int_laws
sum_settled-append since (x ∷ rs) r = grind (int_laws, sum_settled-append since rs r)

-- A settled send counts in full the moment its receipt is remembered, as long as the journal of
-- receipts is not full.
pub settled_outbound_since-remember :
    (since : ℕ) (r : Receipt) (l : Ledger)
    → length l.receipts < receipt_retention
    → settled_outbound_since (remember_receipt r l) since
      ≡ settled_outbound_since l since +ℤ (if is_settled since r then amount_of r.amount else pos 0)
unfolding settled_outbound_since remember_receipt
settled_outbound_since-remember since r l h =
    rw
      (keep_last-short receipt_retention (l.receipts ++ (r ∷ []))
        (omega (arith, length-append l.receipts (r ∷ []))))
      (sum_settled-append since l.receipts r)
