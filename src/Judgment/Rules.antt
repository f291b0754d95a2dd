-- ===== src/Judgment/Rules.antt =====
-- miriam_agent/judgment/rules.py: `apply_rules`, one function for each run of checks that ends in an
-- early return. The `affordability` of an outcome, a rounded float that only clients print, is left
-- out.
use miriam.Prelude.{
  ℤ, pos, ltb_ℤ, String, Bool, true, false, not, ◌&&◌, ◌||◌, Option, none, some, is_some, List, [],
  ◌∷◌, ◌++◌, str_eq, ◌==◌, if◌then◌else◌,
}
use miriam.Decimal.{Decimal, cents, whole, ltb_dec}
use miriam.Audit.{
  Reason, non_positive_amount, over_limit, locked_sleeve, over_balance, rent_short, over_auto,
  missing_amount, unknown_inflow, low_confidence, incomplete_state, jev_unavailable, advice_only,
  confirm_without_id, confirmation_required, user_cancelled, needs_an_answer, reversible,
  affordable, matches_policy, reason_code,
}
use miriam.Ledger.{Ledger, balance, gap}
use miriam.Limits.{Policy, is_locked, free_after_obligations}
use miriam.State.{
  HandlerState, ProposedAction, ActionType, NextMode, act, ask, stay_quiet, ActionChoice, allow,
  allow_smaller, deny, defer, classify_only, no_choice,
}
use miriam.Judgment.Answers.{
  MoneyJudgment, choice_margin, inflow_min_confidence, intent_min_confidence, intent_min_margin,
}

pub record RuleOutcome : Type 0 where
  pub next_mode : NextMode
  pub action_choice : ActionChoice
  pub reasons : List Reason
  pub suggested_amount : Option Decimal
  pub degraded : Bool
  pub policy_violation : Bool
  pub reversibility : Bool

abbrev has_reason : Reason → List Reason → Bool
has_reason r [] = false
has_reason r (x ∷ xs) = (reason_code x == reason_code r) || has_reason r xs

-- `RuleOutcome.add`, of one reason
unfoldable pub add_reason : Reason → RuleOutcome → RuleOutcome
add_reason r o = record o {
  reasons = if has_reason r o.reasons then o.reasons else o.reasons ++ (r ∷ []);
}

-- the mode and the choice of a return
abbrev pub verdict : NextMode → ActionChoice → RuleOutcome → RuleOutcome
verdict mode choice o = record o { next_mode = mode; action_choice = choice }

abbrev pub quiet : RuleOutcome → RuleOutcome
quiet = verdict stay_quiet classify_only

abbrev pub is_funding : ActionType → Bool
is_funding ActionType.onramp = true
is_funding ActionType.offramp = true
is_funding _ = false

abbrev is_internal : ActionType → Bool
is_internal ActionType.internal_move = true
is_internal ActionType.lock = true
is_internal ActionType.unlock = true
is_internal _ = false

abbrev pub is_purchase : ActionType → Bool
is_purchase ActionType.purchase = true
is_purchase _ = false

abbrev pub is_invest : ActionType → Bool
is_invest ActionType.invest = true
is_invest _ = false

-- `_free_for`
unfoldable pub free_for : ProposedAction → Ledger → ℤ
free_for a l =
    if is_invest a.type
    then balance l "savings"
    else free_after_obligations (balance l "spendable") l.rent_first.required l.rent_first.reserved

abbrev pub is_positive : Decimal → Bool
is_positive d = ltb_dec (whole (pos 0)) d

-- an amount above a number of cents
abbrev pub exceeds : Decimal → ℤ → Bool
exceeds d c = ltb_dec (cents c) d

abbrev positive_or_none : Option Decimal → Option Decimal
positive_or_none none = none
positive_or_none (some d) = if is_positive d then some d else none

-- `_policy_violation`
abbrev violates : ProposedAction → Ledger → Policy → Option Decimal → Bool
violates a l p none = true
violates a l p (some d) =
    is_locked p a.sleeve
    || (exceeds d p.max_with_confirm || (not (is_funding a.type) && exceeds d (free_for a l)))

unfoldable pub policy_violation_of : ProposedAction → Ledger → Policy → Bool
policy_violation_of a l p = violates a l p (positive_or_none a.amount)

-- `_reversibility`
abbrev reverts : ProposedAction → Policy → Option Decimal → Bool
reverts a p none = false
reverts a p (some d) = is_internal a.type || not (exceeds d p.reversible_under)

unfoldable pub reversibility_of : ProposedAction → Policy → Bool
reversibility_of a p = reverts a p (positive_or_none a.amount)

-- `_apply_allowed_action` above the ceiling for acting without asking
unfoldable pub over_auto_action : ℤ → Bool → RuleOutcome → RuleOutcome
unfolding add_reason
over_auto_action cap force o =
    let o₁ = add_reason over_auto o in
    let o₂ =
      if ltb_ℤ (pos 0) cap
      then record (verdict ask allow_smaller o₁) { suggested_amount = some (cents cap) }
      else verdict ask allow o₁ in
    if force then add_reason confirmation_required o₂ else o₂

-- `_apply_allowed_action`
unfoldable pub allowed_action :
    ProposedAction → Decimal → ℤ → Policy → ℤ → Bool → Bool → RuleOutcome → RuleOutcome
unfolding over_auto_action add_reason
allowed_action a d free p cap is_short force o =
    let o₁ = if o.reversibility then add_reason reversible o else o in
    if exceeds d free && not (is_funding a.type)
    then verdict ask deny (add_reason (if is_short then rent_short else over_balance) o₁)
    else if exceeds d p.max_with_confirm
    then verdict ask deny (add_reason over_limit o₁)
    else if exceeds d p.max_auto
    then over_auto_action cap force o₁
    else (let o₂ = add_reason affordable (add_reason matches_policy o₁) in
        if force
        then verdict ask allow (add_reason confirmation_required o₂)
        else verdict act allow o₂)

-- the checks of the amount, of an order or a confirmation
unfoldable pub order_rules :
    ProposedAction → Option Decimal → Bool → Ledger → Policy → ℤ → RuleOutcome → RuleOutcome
unfolding allowed_action add_reason free_for is_locked
order_rules a none force l p cap o = verdict ask defer (add_reason missing_amount o)
order_rules a (some d) force l p cap o =
    if not (is_positive d)
    then verdict ask deny (add_reason non_positive_amount o)
    else if is_locked p a.sleeve
    then verdict ask deny (add_reason locked_sleeve o)
    else if is_funding a.type
    then (if exceeds d p.max_with_confirm
        then verdict ask deny (add_reason over_limit o)
        else verdict ask allow (add_reason matches_policy o))
    else allowed_action a d (free_for a l) p cap (ltb_ℤ (pos 0) (gap l.rent_first)) force o

abbrev pub is_order : String → Bool
is_order intent = str_eq intent "order"

abbrev pub is_confirm : String → Bool
is_confirm intent = str_eq intent "confirm"

abbrev pub is_cancel : String → Bool
is_cancel intent = str_eq intent "cancel"

-- a turn that proposes an action, by its intent
unfoldable pub proposal_rules :
    ProposedAction → String → Ledger → Policy → ℤ → RuleOutcome → RuleOutcome
unfolding order_rules add_reason
proposal_rules a intent l p cap o =
    if is_cancel intent
    then verdict ask deny (add_reason user_cancelled o)
    else if str_eq intent "advice" || is_purchase a.type
    then verdict ask no_choice (add_reason advice_only o)
    else if not (is_order intent || is_confirm intent)
    then verdict ask no_choice (add_reason needs_an_answer o)
    else order_rules a a.amount (is_confirm intent) l p cap o

-- a turn that proposes nothing
unfoldable pub silent_rules : String → Bool → RuleOutcome → RuleOutcome
unfolding add_reason
silent_rules intent has_inflow o =
    if is_confirm intent || is_cancel intent
    then verdict act no_choice (add_reason confirm_without_id o)
    else if has_inflow
    then quiet o
    else verdict ask no_choice (add_reason needs_an_answer o)

abbrev is_none : Option ProposedAction → Bool
is_none none = true
is_none (some a) = false

abbrev pub by_proposal :
    Option ProposedAction → String → Bool → Ledger → Policy → ℤ → RuleOutcome → RuleOutcome
by_proposal none intent has_inflow l p cap o = silent_rules intent has_inflow o
by_proposal (some a) intent has_inflow l p cap o = proposal_rules a intent l p cap o

-- an answer on the intent that is good enough
abbrev pub is_confident : MoneyJudgment → Bool
is_confident j =
    not (ltb_dec j.intent_type.confidence intent_min_confidence)
    && not (ltb_dec (choice_margin j.intent_type) intent_min_margin)

unfoldable pub intent_rules :
    Option ProposedAction → Bool → MoneyJudgment → Ledger → Policy → ℤ → RuleOutcome → RuleOutcome
unfolding proposal_rules silent_rules choice_margin add_reason
intent_rules proposed has_inflow j l p cap o =
    if is_confident j
    then by_proposal proposed j.intent_type.choice has_inflow l p cap o
    else if is_none proposed && has_inflow
    then quiet o
    else verdict ask defer (add_reason low_confidence o)

abbrev pub is_unknown : MoneyJudgment → Bool
is_unknown j =
    str_eq j.inflow_class.choice "unknown"
    || ltb_dec j.inflow_class.confidence inflow_min_confidence

unfoldable pub inflow_rules :
    Option ProposedAction → Bool → MoneyJudgment → Ledger → Policy → ℤ → RuleOutcome → RuleOutcome
unfolding intent_rules add_reason
inflow_rules proposed has_inflow j l p cap o =
    if has_inflow && is_unknown j
    then (if is_none proposed
        then quiet (add_reason unknown_inflow o)
        else intent_rules proposed has_inflow j l p cap (add_reason unknown_inflow o))
    else intent_rules proposed has_inflow j l p cap o

-- the outcome before any check
abbrev pub undecided : RuleOutcome
undecided = record {
  next_mode = ask;
  action_choice = no_choice;
  reasons = [];
  suggested_amount = none;
  degraded = false;
  policy_violation = false;
  reversibility = false;
}

-- the computed facts of a proposal
abbrev pub facts : Option ProposedAction → Ledger → Policy → RuleOutcome
facts none l p = undecided
facts (some a) l p = record undecided {
  policy_violation = policy_violation_of a l p;
  reversibility = reversibility_of a p;
}

-- the judge has not answered
abbrev pub unanswered : Option ProposedAction → RuleOutcome → RuleOutcome
unanswered none o = quiet o
unanswered (some a) o = verdict ask defer o

abbrev pub by_judgment : HandlerState → Option MoneyJudgment → Ledger → Policy → ℤ → RuleOutcome
by_judgment s none l p cap =
    unanswered s.proposed_action (
      add_reason low_confidence (add_reason jev_unavailable (record undecided { degraded = true })))
by_judgment s (some j) l p cap =
    inflow_rules s.proposed_action (is_some s.pending_inflow) j l p cap
      (facts s.proposed_action l p)

-- `apply_rules`
unfoldable pub apply_rules : HandlerState → Option MoneyJudgment → Ledger → Policy → ℤ → RuleOutcome
unfolding inflow_rules add_reason policy_violation_of reversibility_of
apply_rules s judgment l p cap =
    if s.is_ok then by_judgment s judgment l p cap else add_reason incomplete_state undecided
