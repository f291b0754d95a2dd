-- ===== src/Judgment/Decide.antt =====
-- miriam_agent/judgment/decide.py: the cap that is offered, and the decision of one turn. A judge that
-- raises or does not answer is `none`; the confidences and the flags that only clients print are left
-- out of the decision.
pub mod Acting
pub mod Agreement
pub mod Offers
use miriam.Prelude.{
  ℕ, ℤ, String, Bool, true, false, ◌||◌, Option, none, some, str_eq, if◌then◌else◌,
}
use miriam.Decimal.{Decimal}
use miriam.Ledger.{Ledger, balance}
use miriam.Limits.{Policy, affordable_cap}
use miriam.State.{HandlerState, ProposedAction, Decision}
use miriam.Judgment.Answers.{MoneyJudgment}
use miriam.Judgment.Rules.{RuleOutcome, apply_rules, is_invest}

abbrev spendable_cap : Policy → Ledger → ℤ
spendable_cap p l =
    affordable_cap p (balance l "spendable") l.rent_first.required l.rent_first.reserved

abbrev pub cap_of : Option ProposedAction → Policy → Ledger → ℤ
cap_of none p l = spendable_cap p l
cap_of (some a) p l = if is_invest a.type then balance l "savings" else spendable_cap p l

-- `cap_for`
unfoldable pub cap_for : HandlerState → Ledger → Policy → ℤ
cap_for s l p = cap_of s.proposed_action p l

abbrev pub given_or : Option ℤ → ℤ → ℤ
given_or none cap = cap
given_or (some given) cap = given

-- `_inflow_class`
unfoldable pub narrow_inflow : String → String
narrow_inflow label =
    if str_eq label "salary"
      || (str_eq label "invoice"
          || (str_eq label "gift" || (str_eq label "refund" || str_eq label "transfer_in")))
    then label
    else "unknown"

abbrev label_of : Option MoneyJudgment → String
label_of none = ""
label_of (some j) = j.inflow_class.choice

-- `decide`, of what the judge has answered, under a fresh id
unfoldable pub decide :
    String → HandlerState → Ledger → Policy → Option MoneyJudgment → Option ℤ → Decision
unfolding apply_rules cap_for narrow_inflow
decide id s l p judgment cap =
    let o = apply_rules s judgment l p (given_or cap (cap_for s l p)) in
    record {
      id = id;
      inflow_class = narrow_inflow (label_of judgment);
      next_mode = o.next_mode;
      action_choice = o.action_choice;
      suggested_amount = o.suggested_amount;
      reasons = o.reasons;
      degraded = o.degraded;
    }
