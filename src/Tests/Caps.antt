-- ===== src/Tests/Caps.antt =====
-- Runs of the limits.
use miriam.Prelude.{
  ◌≡◌, ◌↔◌, refl, arith, int_laws, ℕ, zero, suc, pos, ◌≤ℤ◌, ◌<ℤ◌, true, false, some, List, [], ◌∷◌,
  length,
}
use miriam.Audit.{Receipt, rejected}
use miriam.Ledger.{Ledger}
use miriam.Limits.{
  evaluate_limits, classify_limits, affordable_cap, free_after_obligations, needs_confirm,
  is_settled, allow, confirm, block,
}
use miriam.Limits.Verdict.{
  WithinPolicy, WithinUsage, Within, evaluate_limits-allowed, classify_limits_tiers,
}
use miriam.Limits.Caps.{affordable_cap-IsLargest}
use miriam.Limits.Trimming.{NoneSettled}
use miriam.Tests.Data.{utc, policy, ledger, sent}

evaluate_limits-allowed_example :
    ((evaluate_limits utc policy
        (pos 2000)
        "spendable"
        (pos 10000)
        (pos 7000)
        (pos 4000)
        (some ledger)
        864000).allowed
      ≡ true)
    ↔ (WithinPolicy policy
          (pos 2000)
          "spendable"
          (free_after_obligations (pos 10000) (pos 7000) (pos 4000))
        × WithinUsage utc policy (pos 2000) ledger 864000)
evaluate_limits-allowed_example =
    evaluate_limits-allowed utc policy (pos 2000) ledger 864000 "spendable" (pos 10000) (pos 7000)
      (pos 4000)

classify_limits_tiers_example :
    let d =
      classify_limits utc policy
        (pos 6000)
        "spendable"
        (pos 10000)
        (pos 7000)
        (pos 4000)
        (some ledger)
        864000 in
    let within =
      Within utc policy (pos 6000) ledger 864000 "spendable" (pos 10000) (pos 7000) (pos 4000) in
    ((d.verdict ≡ allow) ↔ (within × (pos 6000 ≤ℤ pos 5000)))
    × ((d.verdict ≡ confirm) ↔ (within × (pos 5000 <ℤ pos 6000)))
    × ((d.verdict ≡ block) ↔ (¬ within))
classify_limits_tiers_example =
    classify_limits_tiers utc policy (pos 6000) ledger 864000 "spendable" (pos 10000) (pos 7000)
      (pos 4000)

affordable_cap-IsLargest_example :
    (pos 0 ≤ℤ affordable_cap policy (pos 10000) (pos 7000) (pos 4000))
    × ((pos 4500 ≤ℤ affordable_cap policy (pos 10000) (pos 7000) (pos 4000)) ↔ (
        (pos 4500 ≤ℤ free_after_obligations (pos 10000) (pos 7000) (pos 4000))
        × (needs_confirm policy (pos 4500) ≡ false)))
affordable_cap-IsLargest_example =
    affordable_cap-IsLargest policy (pos 10000) (pos 7000) (pos 4000) (pos 4500) (omega int_laws)

abbrev after_send : Ledger
after_send = record ledger { receipts = sent ∷ [] }

-- a refused send
abbrev refused : Receipt
refused = record sent { id = "rcpt_9"; status = rejected; idempotency_key = "dec_9" }

abbrev refusals : ℕ → List Receipt
refusals zero = []
refusals (suc n) = refused ∷ refusals n

length-refusals : (n : ℕ) → length (refusals n) ≡ n
length-refusals zero = refl
length-refusals (suc n) = omega (arith, length-refusals n)

refusals-NoneSettled : (n : ℕ) → NoneSettled 860000 (refusals n)
unfolding is_settled
refusals-NoneSettled zero = tt
refusals-NoneSettled (suc n) = (refl, refusals-NoneSettled n)
