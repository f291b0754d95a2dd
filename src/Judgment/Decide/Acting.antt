-- ===== src/Judgment/Decide/Acting.antt =====
-- When `apply_rules` of miriam_agent/judgment/rules.py lets Hands act, and what the limits of
-- miriam_agent/hands/limits.py make of it.
use mathlib.Core.Path.{subst}
use miriam.Audit.{unknown_inflow}
use miriam.Prelude.{
  ◌≡◌, ◌≢◌, refl, sym, ◌∙◌, ap, arith, ℤ, pos, ltb_ℤ, String, Bool, true, false, ◌||◌, ◌⊎◌, inl,
  inr, Bool-cases, Option, none, some, is_some,
}
use miriam.Decimal.{Decimal}
use miriam.Ledger.{Ledger, gap}
use miriam.Limits.{Policy, is_locked}
use miriam.State.{HandlerState, ProposedAction, act, allow, no_choice}
use miriam.Judgment.Answers.{MoneyJudgment}
use miriam.Judgment.Rules.{
  RuleOutcome, apply_rules, inflow_rules, intent_rules, proposal_rules, order_rules, allowed_action,
  over_auto_action, silent_rules, add_reason, free_for, is_positive, exceeds, is_funding,
  is_purchase, is_order, is_confirm, is_confident, by_proposal, by_judgment, unanswered, facts,
}

-- An order that is within what may be done without asking.
pub record Authorises (a : ProposedAction) (d : Decimal) (intent : String) (l : Ledger) (p : Policy)
    : Type 0 where
  pub ordered : is_order intent ≡ true
  pub positive : is_positive d ≡ true
  pub open_sleeve : is_locked p a.sleeve ≡ false
  pub covered : exceeds d (free_for a l) ≡ false
  pub automatic : exceeds d p.max_auto ≡ false
  pub capped : exceeds d p.max_with_confirm ≡ false
  pub no_funding : is_funding a.type ≡ false
  pub no_purchase : is_purchase a.type ≡ false

abbrev IsAct : RuleOutcome → Type 0
IsAct o = o.next_mode ≡ act

add_reason-mode : (r : _) (o : RuleOutcome) → (add_reason r o).next_mode ≡ o.next_mode
unfolding add_reason
add_reason-mode r o = refl

allowed_action-act :
    (a : ProposedAction) (d : Decimal) (free : ℤ) (p : Policy) (offer : ℤ) (is_short force : Bool)
    (o : RuleOutcome)
    → is_funding a.type ≡ false
    → IsAct (allowed_action a d free p offer is_short force o)
    → (force ≡ false)
      × (exceeds d free ≡ false)
      × (exceeds d p.max_auto ≡ false)
      × (exceeds d p.max_with_confirm ≡ false)
      × ((allowed_action a d free p offer is_short force o).action_choice ≡ allow)
unfolding allowed_action over_auto_action add_reason
allowed_action-act a d free p offer is_short force o f h = ground arith

order_rules-act :
    (a : ProposedAction) (d : Decimal) (force : Bool) (l : Ledger) (p : Policy) (offer : ℤ)
    (o : RuleOutcome)
    → IsAct (order_rules a (some d) force l p offer o)
    → (force ≡ false)
      × (is_positive d ≡ true)
      × (is_locked p a.sleeve ≡ false)
      × (is_funding a.type ≡ false)
      × (exceeds d (free_for a l) ≡ false)
      × (exceeds d p.max_auto ≡ false)
      × (exceeds d p.max_with_confirm ≡ false)
      × ((order_rules a (some d) force l p offer o).action_choice ≡ allow)
unfolding order_rules
order_rules-act a d force l p offer o h = elim (Bool-cases (is_funding a.type)) [
  | inl funding ↦ absurd (ground arith)
  | inr f ↦ ground (
    arith,
    allowed_action-act a d (free_for a l) p offer (ltb_ℤ (pos 0) (gap l.rent_first)) force o f,
  )
]

-- What stands behind a decision to act on a proposal with an amount.
abbrev ActsOn : ProposedAction → Option Decimal → String → Ledger → Policy → RuleOutcome → Type 0
ActsOn a m intent l p o =
    (d : Decimal) × (m ≡ some d) × Authorises a d intent l p × (o.action_choice ≡ allow)

order_rules-ActsOn :
    (a : ProposedAction) (m : Option Decimal) (intent : String) (force : Bool) (l : Ledger)
    (p : Policy) (offer : ℤ) (o : RuleOutcome)
    → (is_order intent || force) ≡ true
    → is_purchase a.type ≡ false
    → IsAct (order_rules a m force l p offer o)
    → ActsOn a m intent l p (order_rules a m force l p offer o)
unfolding order_rules
order_rules-ActsOn a none intent force l p offer o ordered np h = cc
order_rules-ActsOn a (some d) intent force l p offer o ordered np h =
    let (f, pos_d, open_, nf, free, auto, capped, choice) =
      order_rules-act a d force l p offer o h in
    (
      d,
      refl,
      record {
        ordered = ground arith;
        positive = pos_d;
        open_sleeve = open_;
        covered = free;
        automatic = auto;
        capped = capped;
        no_funding = nf;
        no_purchase = np;
      },
      choice,
    )

proposal_rules-act :
    (a : ProposedAction) (intent : String) (l : Ledger) (p : Policy) (offer : ℤ) (o : RuleOutcome)
    → IsAct (proposal_rules a intent l p offer o)
    → ((is_order intent || is_confirm intent) ≡ true)
      × (is_purchase a.type ≡ false)
      × (proposal_rules a intent l p offer o
          ≡ order_rules a a.amount (is_confirm intent) l p offer o)
unfolding proposal_rules add_reason
proposal_rules-act a intent l p offer o h = (ground arith, ground arith, ground arith)

proposal_rules-ActsOn :
    (a : ProposedAction) (intent : String) (l : Ledger) (p : Policy) (offer : ℤ) (o : RuleOutcome)
    → IsAct (proposal_rules a intent l p offer o)
    → ActsOn a a.amount intent l p (proposal_rules a intent l p offer o)
proposal_rules-ActsOn a intent l p offer o h =
    let (ordered, np, e) = proposal_rules-act a intent l p offer o h in
    let h' : IsAct (order_rules a a.amount (is_confirm intent) l p offer o) =
      sym (ap (λ (x : RuleOutcome). x.next_mode) e) ∙ h in
    subst (ActsOn a a.amount intent l p) (sym e)
      (order_rules-ActsOn a a.amount intent (is_confirm intent) l p offer o ordered np h')

silent_rules-act :
    (intent : String) (has_inflow : Bool) (o : RuleOutcome)
    → IsAct (silent_rules intent has_inflow o)
    → (silent_rules intent has_inflow o).action_choice ≡ no_choice
unfolding silent_rules add_reason
silent_rules-act intent has_inflow o h = ground arith

-- What stands behind a decision to act: a word of assent to nothing, which moves nothing, or an order.
abbrev pub Acts : Option ProposedAction → MoneyJudgment → Ledger → Policy → RuleOutcome → Type 0
Acts m j l p o =
    ((m ≡ none) × (o.action_choice ≡ no_choice))
    ⊎ ((a : ProposedAction) × (m ≡ some a) × ActsOn a a.amount j.intent_type.choice l p o)

by_proposal-Acts :
    (m : Option ProposedAction) (has_inflow : Bool) (j : MoneyJudgment) (l : Ledger) (p : Policy)
    (offer : ℤ) (o : RuleOutcome)
    → IsAct (by_proposal m j.intent_type.choice has_inflow l p offer o)
    → Acts m j l p (by_proposal m j.intent_type.choice has_inflow l p offer o)
by_proposal-Acts none has_inflow j l p offer o h =
    inl (refl, silent_rules-act j.intent_type.choice has_inflow o h)
by_proposal-Acts (some a) has_inflow j l p offer o h =
    inr (a, refl, proposal_rules-ActsOn a j.intent_type.choice l p offer o h)

intent_rules-act :
    (m : Option ProposedAction) (has_inflow : Bool) (j : MoneyJudgment) (l : Ledger) (p : Policy)
    (offer : ℤ) (o : RuleOutcome)
    → IsAct (intent_rules m has_inflow j l p offer o)
    → (is_confident j ≡ true)
      × (intent_rules m has_inflow j l p offer o
          ≡ by_proposal m j.intent_type.choice has_inflow l p offer o)
unfolding intent_rules add_reason
intent_rules-act m has_inflow j l p offer o h = elim (Bool-cases (is_confident j)) [
  | inl e ↦ (e, rw e)
  | inr e ↦ absurd (doubtful e)
]
  where
    doubtful : is_confident j ≡ false → ⊥
    doubtful e = ground arith

intent_rules-Acts :
    (m : Option ProposedAction) (has_inflow : Bool) (j : MoneyJudgment) (l : Ledger) (p : Policy)
    (offer : ℤ) (o : RuleOutcome)
    → IsAct (intent_rules m has_inflow j l p offer o)
    → (is_confident j ≡ true) × Acts m j l p (intent_rules m has_inflow j l p offer o)
intent_rules-Acts m has_inflow j l p offer o h =
    let (sure, e) = intent_rules-act m has_inflow j l p offer o h in
    let h' : IsAct (by_proposal m j.intent_type.choice has_inflow l p offer o) =
      sym (ap (λ (x : RuleOutcome). x.next_mode) e) ∙ h in
    (sure, subst (Acts m j l p) (sym e) (by_proposal-Acts m has_inflow j l p offer o h'))

inflow_rules-act :
    (m : Option ProposedAction) (has_inflow : Bool) (j : MoneyJudgment) (l : Ledger) (p : Policy)
    (offer : ℤ) (o : RuleOutcome)
    → IsAct (inflow_rules m has_inflow j l p offer o)
    → (inflow_rules m has_inflow j l p offer o ≡ intent_rules m has_inflow j l p offer o)
      ⊎ (inflow_rules m has_inflow j l p offer o
          ≡ intent_rules m has_inflow j l p offer (add_reason unknown_inflow o))
unfolding inflow_rules add_reason
inflow_rules-act m has_inflow j l p offer o h = ground arith

inflow_rules-Acts :
    (m : Option ProposedAction) (has_inflow : Bool) (j : MoneyJudgment) (l : Ledger) (p : Policy)
    (offer : ℤ) (o : RuleOutcome)
    → IsAct (inflow_rules m has_inflow j l p offer o)
    → (is_confident j ≡ true) × Acts m j l p (inflow_rules m has_inflow j l p offer o)
inflow_rules-Acts m has_inflow j l p offer o h =
    elim (inflow_rules-act m has_inflow j l p offer o h) [
      | inl e ↦ from_intent o e
      | inr e ↦ from_intent (add_reason unknown_inflow o) e
    ]
  where
    from_intent :
        (o' : RuleOutcome)
        → inflow_rules m has_inflow j l p offer o ≡ intent_rules m has_inflow j l p offer o'
        → (is_confident j ≡ true) × Acts m j l p (inflow_rules m has_inflow j l p offer o)
    from_intent o' e =
        let h' : IsAct (intent_rules m has_inflow j l p offer o') =
          sym (ap (λ (x : RuleOutcome). x.next_mode) e) ∙ h in
        let (sure, acts) = intent_rules-Acts m has_inflow j l p offer o' h' in
        (sure, subst (Acts m j l p) (sym e) acts)

unanswered-waits : (m : Option ProposedAction) (o : RuleOutcome) → (unanswered m o).next_mode ≢ act
unanswered-waits none o h = cc
unanswered-waits (some a) o h = cc

by_judgment-Acts :
    (s : HandlerState) (m : Option MoneyJudgment) (l : Ledger) (p : Policy) (offer : ℤ)
    → IsAct (by_judgment s m l p offer)
    → (j : MoneyJudgment) × (m ≡ some j)
      × (is_confident j ≡ true)
      × Acts s.proposed_action j l p (by_judgment s m l p offer)
by_judgment-Acts s none l p offer h = absurd (unanswered-waits s.proposed_action _ h)
by_judgment-Acts s (some j) l p offer h =
    let (sure, acts) =
      inflow_rules-Acts s.proposed_action (is_some s.pending_inflow) j l p offer
        (facts s.proposed_action l p) h in
    (j, refl, sure, acts)

apply_rules_complete :
    (s : HandlerState) (m : Option MoneyJudgment) (l : Ledger) (p : Policy) (offer : ℤ)
    → IsAct (apply_rules s m l p offer)
    → (s.is_ok ≡ true) × (apply_rules s m l p offer ≡ by_judgment s m l p offer)
unfolding apply_rules add_reason
apply_rules_complete s m l p offer h = elim (Bool-cases s.is_ok) [
  | inl e ↦ (e, rw e)
  | inr e ↦ absurd (incomplete e)
]
  where
    incomplete : s.is_ok ≡ false → ⊥
    incomplete e = ground arith

-- The rules let Hands act only on a complete STATE and on a confident answer of the judge: never when
-- the judge has not answered. Then either nothing is proposed and nothing may move, or there is an
-- order of a positive amount, out of a sleeve that is not locked, within the money that it may draw on,
-- within the ceiling for acting without asking and within the ceiling of a transaction.
pub apply_rules-Acts :
    (s : HandlerState) (m : Option MoneyJudgment) (l : Ledger) (p : Policy) (offer : ℤ)
    → (apply_rules s m l p offer).next_mode ≡ act
    → (s.is_ok ≡ true)
      × ((j : MoneyJudgment) × (m ≡ some j)
          × (is_confident j ≡ true)
          × Acts s.proposed_action j l p (apply_rules s m l p offer))
apply_rules-Acts s m l p offer h =
    let (complete, e) = apply_rules_complete s m l p offer h in
    let h' : IsAct (by_judgment s m l p offer) =
      sym (ap (λ (x : RuleOutcome). x.next_mode) e) ∙ h in
    let (j, answered, sure, acts) = by_judgment-Acts s m l p offer h' in
    (complete, (j, answered, sure, subst (Acts s.proposed_action j l p) (sym e) acts))
