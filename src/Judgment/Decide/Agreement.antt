-- ===== src/Judgment/Decide/Agreement.antt =====
-- `decide` of miriam_agent/judgment/decide.py against `evaluate_limits` of
-- miriam_agent/hands/limits.py, which Hands runs again before it moves anything.
use miriam.Prelude.{
  ◌≡◌, ◌↔◌, sym, ◌∙◌, ap, arith, ℕ, ◌*◌, ◌≤◌, ◌^◌, ℤ, pos, negsuc, ◌*ℤ◌, ◌≤ℤ◌, ◌<ℤ◌, String, true,
  false, Option, some, inl, inr, get_or,
}
use mathlib.Core.Path.{subst}
use miriam.Decimal.{Decimal, money, ltb_dec}
use miriam.Decimal.Rounding.{pow_pos, round_half_up-le}
use miriam.Ledger.{Ledger, balance}
use miriam.Limits.{Zone, Policy, evaluate_limits, free_after_obligations}
use miriam.Limits.Verdict.{WithinPolicy, WithinUsage, evaluate_limits-allowed}
use miriam.State.{HandlerState, ProposedAction, act, allow}
use miriam.Judgment.Answers.{MoneyJudgment}
use miriam.Judgment.Rules.{free_for, is_invest, exceeds, is_positive}
use miriam.Judgment.Decide.{decide, cap_for, given_or}
use miriam.Judgment.Decide.Acting.{apply_rules-Acts, Authorises}

money-le_at :
    (k : ℤ) (p : ℕ) (c : ℤ)
    → is_positive (record { coef = k; places = p }) ≡ true
    → exceeds (record { coef = k; places = p }) c ≡ false
    → money (record { coef = k; places = p }) ≤ℤ c
unfolding money ltb_dec ◌*ℤ◌
money-le_at (pos n) p (pos m) h e =
    let h' : n * 100 ≤ m * 10 ^ p = ground arith in
    omega (arith, round_half_up-le (n * 100) (10 ^ p) m (pow_pos p) h')
money-le_at (pos n) p (negsuc m) h e = absurd (ground (arith, pow_pos p))
money-le_at (negsuc n) p c h e = absurd (ground arith)

-- An amount above nought that does not exceed some cents rounds to at most those cents.
money-le : (d : Decimal) (c : ℤ) → is_positive d ≡ true → exceeds d c ≡ false → money d ≤ℤ c
money-le d c h e = money-le_at d.coef d.places c h e

Authorises-WithinPolicy :
    (a : ProposedAction) (d : Decimal) (intent : String) (l : Ledger) (p : Policy)
    → Authorises a d intent l p
    → is_invest a.type ≡ false
    → pos 0 <ℤ money d
    → WithinPolicy p
        (money d)
        a.sleeve
        (free_after_obligations (balance l "spendable") l.rent_first.required l.rent_first.reserved)
unfolding free_for
Authorises-WithinPolicy a d intent l p v ni h = record {
  positive = h;
  capped = money-le d p.max_with_confirm v.positive v.capped;
  open_sleeve = v.open_sleeve;
  covered = money-le d _ v.positive (rw ni at v.covered);
}

module _ (id : String) (s : HandlerState) (l : Ledger) (p : Policy) (m : Option MoneyJudgment)
    (given : Option ℤ) (a : ProposedAction) (d : Decimal) where
  pub decide-Authorises :
      (decide id s l p m given).next_mode ≡ act
      → s.proposed_action ≡ some a
      → a.amount ≡ some d
      → (j : MoneyJudgment) × (m ≡ some j)
        × Authorises a d j.intent_type.choice l p
        × ((decide id s l p m given).action_choice ≡ allow)
  unfolding decide
  decide-Authorises h e f =
      let (complete, (j, answered, sure, acts)) =
        apply_rules-Acts s m l p (given_or given (cap_for s l p)) h in
      elim acts [
        | inl (nothing, choice) ↦ absurd (cc (nothing, e))
        | inr (a', proposed, (d', amount, v, choice)) ↦
            let same : a' ≡ a = ap (λ (o : Option ProposedAction). get_or o a) (sym proposed ∙ e) in
            let as_given : d' ≡ d =
              ap (λ (o : Option Decimal). get_or o d)
                (sym amount ∙ ap (λ (x : ProposedAction). x.amount) same ∙ f) in
            (
              j,
              answered,
              subst (λ x. Authorises a x j.intent_type.choice l p) as_given
                  (subst (λ x. Authorises x d' j.intent_type.choice l p) same v),
              choice,
            )
      ]

  -- Judgment and Hands agree. Where `decide` lets Hands act on a proposal with an amount of at least
  -- one cent once rounded, other than an investment, the limits that Hands checks again allow the
  -- rounded amount exactly when the daily, the weekly and the hourly usage with it stay within their
  -- caps: the ceiling, the sleeve and the balance hold already.
  pub decide-evaluate_limits :
      (z : Zone) (at : ℕ)
      → (decide id s l p m given).next_mode ≡ act
      → s.proposed_action ≡ some a
      → a.amount ≡ some d
      → is_invest a.type ≡ false
      → pos 0 <ℤ money d
      → ((evaluate_limits z p
            (money d)
            a.sleeve
            (balance l "spendable")
            l.rent_first.required
            l.rent_first.reserved
            (some l)
            at).allowed
          ≡ true)
        ↔ WithinUsage z p (money d) l at
  decide-evaluate_limits z at h e f ni positive =
      let (j, answered, v, choice) = decide-Authorises h e f in
      let w = Authorises-WithinPolicy a d j.intent_type.choice l p v ni positive in
      let both =
        evaluate_limits-allowed z p (money d) l at a.sleeve (balance l "spendable")
          l.rent_first.required l.rent_first.reserved in
      ((λ ok. (both.0 ok).1), λ usage. both.1 (w, usage))
