-- ===== src/Limits/Caps.antt =====
-- `affordable_cap` of miriam_agent/hands/limits.py.
use miriam.Prelude.{◌≡◌, ◌↔◌, false, ℤ, pos, ◌≤ℤ◌, ◌<ℤ◌, arith}
use miriam.Limits.{Policy, affordable_cap, needs_confirm, free_after_obligations}

module _ (p : Policy) (spendable required reserved : ℤ) where
  abbrev cap : ℤ
  cap = affordable_cap p spendable required reserved

  affordable_cap_nonneg : pos 0 ≤ℤ cap
  unfolding affordable_cap
  affordable_cap_nonneg = ground arith

  within_cap :
      (amount : ℤ)
      → pos 0 <ℤ amount
      → amount ≤ℤ cap
      → (amount ≤ℤ free_after_obligations spendable required reserved) × (amount ≤ℤ p.max_auto)
  unfolding affordable_cap
  within_cap amount h k = ground arith

  cap_above :
      (amount : ℤ)
      → pos 0 <ℤ amount
      → (amount ≤ℤ free_after_obligations spendable required reserved) × (amount ≤ℤ p.max_auto)
      → amount ≤ℤ cap
  unfolding affordable_cap
  cap_above amount h k = ground arith

  -- The cap is the largest safe movement: it is never negative, and a positive amount is within it
  -- exactly when it is free of the rent still owed and needs no confirmation.
  pub affordable_cap-IsLargest :
      (amount : ℤ)
      → pos 0 <ℤ amount
      → (pos 0 ≤ℤ cap)
        × ((amount ≤ℤ cap) ↔ (
            (amount ≤ℤ free_after_obligations spendable required reserved)
            × (needs_confirm p amount ≡ false)))
  unfolding needs_confirm
  affordable_cap-IsLargest amount h = (
    affordable_cap_nonneg,
    (
      (λ k. let w = within_cap amount h k in (w.0, ground arith)),
      λ k. cap_above amount h (k.0, ground (arith, k.1)),
    ),
  )
