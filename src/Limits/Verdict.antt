-- ===== src/Limits/Verdict.antt =====
-- `evaluate_limits` and `classify_limits` of miriam_agent/hands/limits.py.
use miriam.Prelude.{
  ◌≡◌, inl, inr, Bool-cases, ◌↔◌, ◌<◌, ℕ, ℤ, pos, ◌+ℤ◌, ◌≤ℤ◌, ◌<ℤ◌, arith, String, true, false,
  some,
}
use miriam.Ledger.{Ledger}
use miriam.Limits.{
  Zone, Policy, evaluate_limits, LimitReport, classify_limits, usage_reasons, none_known, is_locked,
  free_after_obligations, daily_usage, weekly_usage, mutations_in_window, allow, confirm, block,
}

-- What the ledger allows one more send of an amount.
pub record WithinUsage (z : Zone) (p : Policy) (amount : ℤ) (l : Ledger) (at : ℕ) : Type 0 where
  pub daily : daily_usage z l at +ℤ amount ≤ℤ p.max_daily
  pub weekly : weekly_usage z l at +ℤ amount ≤ℤ p.max_weekly
  pub hourly : mutations_in_window l 60 at < p.max_per_hour

-- What the policy and the balance allow.
pub record WithinPolicy (p : Policy) (amount : ℤ) (sleeve : String) (free : ℤ) : Type 0 where
  pub positive : pos 0 <ℤ amount
  pub capped : amount ≤ℤ p.max_with_confirm
  pub open_sleeve : is_locked p sleeve ≡ false
  pub covered : amount ≤ℤ free

module _ (z : Zone) (p : Policy) (amount : ℤ) (l : Ledger) (at : ℕ) where
  none_known-usage : none_known (usage_reasons z p amount l at) ≡ true → WithinUsage z p amount l at
  unfolding none_known usage_reasons
  none_known-usage h = ground arith

  usage-none_known : WithinUsage z p amount l at → none_known (usage_reasons z p amount l at) ≡ true
  unfolding none_known usage_reasons
  usage-none_known w = ground arith

  module _ (sleeve : String) (spendable required reserved : ℤ) where
    abbrev free : ℤ
    free = free_after_obligations spendable required reserved

    abbrev report : LimitReport
    report = evaluate_limits z p amount sleeve spendable required reserved (some l) at

    allowed-inversion :
        report.allowed ≡ true
        → WithinPolicy p amount sleeve free × (none_known (usage_reasons z p amount l at) ≡ true)
    unfolding evaluate_limits
    allowed-inversion h = ground arith

    allowed-build :
        WithinPolicy p amount sleeve free
        → none_known (usage_reasons z p amount l at) ≡ true
        → report.allowed ≡ true
    unfolding evaluate_limits
    allowed-build w h = ground arith

    -- A send is allowed exactly when the amount is positive, at most the transaction ceiling and
    -- covered by the money free of rent, the sleeve is not locked, and the daily, the weekly and the
    -- hourly usage with this send stay within their caps.
    pub evaluate_limits-allowed :
        (report.allowed ≡ true) ↔ (WithinPolicy p amount sleeve free × WithinUsage z p amount l at)
    evaluate_limits-allowed = (
      (λ h. let i = allowed-inversion h in (i.0, none_known-usage i.1)),
      λ w. allowed-build w.0 (usage-none_known w.1),
    )

    tiers :
        let d = classify_limits z p amount sleeve spendable required reserved (some l) at in
        ((d.verdict ≡ block) ↔ (report.allowed ≡ false))
        × ((d.verdict ≡ confirm) ↔ ((report.allowed ≡ true) × (p.max_auto <ℤ amount)))
        × ((d.verdict ≡ allow) ↔ ((report.allowed ≡ true) × (amount ≤ℤ p.max_auto)))
    unfolding classify_limits
    tiers = (
      ((λ h. ground arith), λ h. ground arith),
      ((λ h. ground arith), λ h. ground arith),
      ((λ h. ground arith), λ h. ground arith),
    )

    abbrev pub Within : Type 0
    Within = WithinPolicy p amount sleeve free × WithinUsage z p amount l at

    -- The tiers, in terms of the ledger and the policy. A send is allowed outright exactly when it is
    -- within every limit (positive, at most the transaction ceiling, covered by the money free of
    -- rent, out of a sleeve that is not locked, and within the daily, the weekly and the hourly cap
    -- with this send counted) and at most the ceiling for acting without asking; it needs a
    -- confirmation exactly when it is within every limit and above that ceiling; and it is blocked
    -- exactly when it is not within every limit.
    pub classify_limits_tiers :
        let d = classify_limits z p amount sleeve spendable required reserved (some l) at in
        ((d.verdict ≡ allow) ↔ (Within × (amount ≤ℤ p.max_auto)))
        × ((d.verdict ≡ confirm) ↔ (Within × (p.max_auto <ℤ amount)))
        × ((d.verdict ≡ block) ↔ (¬ Within))
    classify_limits_tiers =
        let (to, from) = evaluate_limits-allowed in
        let (b, c, a) = tiers in
        (
          ((λ h. (to (a.0 h).0, (a.0 h).1)), λ w. a.1 (from w.0, w.1)),
          ((λ h. (to (c.0 h).0, (c.0 h).1)), λ w. c.1 (from w.0, w.1)),
          (
            (λ h w. absurd (let e = from w in let f = b.0 h in cc (e, f))),
            λ n. b.1 (elim (Bool-cases report.allowed) [ inl e ↦ absurd (n (to e)) | inr e ↦ e ]),
          ),
        )
