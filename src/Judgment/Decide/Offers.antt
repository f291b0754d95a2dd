-- ===== src/Judgment/Decide/Offers.antt =====
-- The smaller amount that `decide` of miriam_agent/judgment/decide.py offers.
use mathlib.Core.Path.{subst}
use native.Mathlib.Nat.{mul-le-mul_right}
use miriam.Prelude.{
  get_or, ◌≡◌, refl, sym, ◌∙◌, ap, arith, ℤ, pos, ◌*ℤ◌, ◌^◌, negsuc, ◌≤◌, ◌≤ℤ◌, ◌<ℤ◌, String, Bool,
  true, false, ◌&&◌, inl, inr, Bool-cases, Option, none, some, is_some, if◌then◌else◌,
}
use miriam.Audit.{unknown_inflow}
use miriam.Decimal.{Decimal, cents, ltb_dec}
use miriam.Ledger.{Ledger, balance}
use miriam.Limits.{Policy, affordable_cap, free_after_obligations}
use miriam.State.{HandlerState, ProposedAction, allow_smaller}
use miriam.Judgment.Answers.{MoneyJudgment}
use miriam.Judgment.Rules.{
  RuleOutcome, apply_rules, by_judgment, unanswered, inflow_rules, intent_rules, by_proposal,
  proposal_rules, silent_rules, order_rules, allowed_action, over_auto_action, add_reason,
  is_unknown, is_confident, is_confirm, free_for, is_invest, exceeds, facts,
}
use miriam.Judgment.Decide.{decide, cap_for}

-- An outcome that offers a smaller amount.
abbrev Offers : RuleOutcome → Type 0
Offers o = o.action_choice ≡ allow_smaller

-- What an offer of a smaller amount stands on.
record IsOffer (a : ProposedAction) (d : Decimal) (l : Ledger) (p : Policy) (offer : ℤ)
    (o : RuleOutcome) : Type 0 where
  pub suggested : o.suggested_amount ≡ some (cents offer)
  pub offer_positive : pos 0 <ℤ offer
  pub over_auto : exceeds d p.max_auto ≡ true
  pub covered : exceeds d (free_for a l) ≡ false

order_rules-Offers :
    (a : ProposedAction) (m : Option Decimal) (force : Bool) (l : Ledger) (p : Policy) (offer : ℤ)
    (o : RuleOutcome)
    → Offers (order_rules a m force l p offer o)
    → (d : Decimal) × (m ≡ some d) × IsOffer a d l p offer (order_rules a m force l p offer o)
unfolding order_rules allowed_action over_auto_action add_reason
order_rules-Offers a none force l p offer o h = cc
order_rules-Offers a (some d) force l p offer o h = (
  d,
  refl,
  record {
    suggested = ground arith;
    offer_positive = ground arith;
    over_auto = ground arith;
    covered = ground arith;
  },
)

-- An offer on a proposal.
abbrev OffersOn : Option ProposedAction → Ledger → Policy → ℤ → RuleOutcome → Type 0
OffersOn m l p offer o =
    (a : ProposedAction) × (m ≡ some a)
    × ((d : Decimal) × (a.amount ≡ some d) × IsOffer a d l p offer o)

proposal_rules-Offers :
    (a : ProposedAction) (intent : String) (l : Ledger) (p : Policy) (offer : ℤ) (o : RuleOutcome)
    → Offers (proposal_rules a intent l p offer o)
    → proposal_rules a intent l p offer o ≡ order_rules a a.amount (is_confirm intent) l p offer o
unfolding proposal_rules add_reason
proposal_rules-Offers a intent l p offer o h = ground arith

silent_rules-Offers :
    (intent : String) (has_inflow : Bool) (o : RuleOutcome)
    → Offers (silent_rules intent has_inflow o)
    → ⊥
unfolding silent_rules add_reason
silent_rules-Offers intent has_inflow o h = ground arith

by_proposal-Offers :
    (m : Option ProposedAction) (intent : String) (has_inflow : Bool) (l : Ledger) (p : Policy)
    (offer : ℤ) (o : RuleOutcome)
    → Offers (by_proposal m intent has_inflow l p offer o)
    → OffersOn m l p offer (by_proposal m intent has_inflow l p offer o)
by_proposal-Offers none intent has_inflow l p offer o h =
    absurd (silent_rules-Offers intent has_inflow o h)
by_proposal-Offers (some a) intent has_inflow l p offer o h =
    let e = proposal_rules-Offers a intent l p offer o h in
    let h' : Offers (order_rules a a.amount (is_confirm intent) l p offer o) =
      sym (ap (λ (x : RuleOutcome). x.action_choice) e) ∙ h in
    subst (OffersOn (some a) l p offer) (sym e)
      (a, refl, order_rules-Offers a a.amount (is_confirm intent) l p offer o h')

intent_rules-Offers :
    (m : Option ProposedAction) (has_inflow : Bool) (j : MoneyJudgment) (l : Ledger) (p : Policy)
    (offer : ℤ) (o : RuleOutcome)
    → Offers (intent_rules m has_inflow j l p offer o)
    → intent_rules m has_inflow j l p offer o
      ≡ by_proposal m j.intent_type.choice has_inflow l p offer o
unfolding intent_rules add_reason
intent_rules-Offers m has_inflow j l p offer o h = elim (Bool-cases (is_confident j)) [
  | inl e ↦ rw e
  | inr e ↦ absurd (doubtful e)
]
  where
    doubtful : is_confident j ≡ false → ⊥
    doubtful e = ground arith

inflow_rules-Offers :
    (m : Option ProposedAction) (has_inflow : Bool) (j : MoneyJudgment) (l : Ledger) (p : Policy)
    (offer : ℤ) (o : RuleOutcome)
    → Offers (inflow_rules m has_inflow j l p offer o)
    → (o' : RuleOutcome) × (inflow_rules m has_inflow j l p offer o
        ≡ intent_rules m has_inflow j l p offer o')
unfolding inflow_rules add_reason
inflow_rules-Offers m has_inflow j l p offer o h =
    (if has_inflow && is_unknown j then add_reason unknown_inflow o else o, ground arith)

by_judgment-Offers :
    (s : HandlerState) (m : Option MoneyJudgment) (l : Ledger) (p : Policy) (offer : ℤ)
    → Offers (by_judgment s m l p offer)
    → OffersOn s.proposed_action l p offer (by_judgment s m l p offer)
by_judgment-Offers s none l p offer h = absurd (unanswered-Offers s.proposed_action _ h)
  where
    unanswered-Offers : (q : Option ProposedAction) (o : RuleOutcome) → Offers (unanswered q o) → ⊥
    unanswered-Offers none o e = cc
    unanswered-Offers (some a) o e = cc
by_judgment-Offers s (some j) l p offer h =
    let q = s.proposed_action in
    let inflow = is_some s.pending_inflow in
    let (o', e) = inflow_rules-Offers q inflow j l p offer (facts q l p) h in
    let h' : Offers (intent_rules q inflow j l p offer o') =
      sym (ap (λ (x : RuleOutcome). x.action_choice) e) ∙ h in
    let e' = intent_rules-Offers q inflow j l p offer o' h' in
    let h'' : Offers (by_proposal q j.intent_type.choice inflow l p offer o') =
      sym (ap (λ (x : RuleOutcome). x.action_choice) e') ∙ h' in
    subst (OffersOn q l p offer) (sym (e ∙ e'))
      (by_proposal-Offers q j.intent_type.choice inflow l p offer o' h'')

apply_rules-Offers :
    (s : HandlerState) (m : Option MoneyJudgment) (l : Ledger) (p : Policy) (offer : ℤ)
    → Offers (apply_rules s m l p offer)
    → OffersOn s.proposed_action l p offer (apply_rules s m l p offer)
unfolding apply_rules add_reason
apply_rules-Offers s m l p offer h = elim (Bool-cases s.is_ok) [
  | inl e ↦ rw e (by_judgment-Offers s m l p offer (rw e at h))
  | inr e ↦ absurd (incomplete e)
]
  where
    incomplete : s.is_ok ≡ false → ⊥
    incomplete e = ground arith

-- An amount above a number of cents is above any smaller positive one.
exceeds_mono :
    (d : Decimal) (b c : ℤ) → pos 0 <ℤ c → c ≤ℤ b → exceeds d b ≡ true → exceeds d c ≡ true
unfolding ltb_dec ◌*ℤ◌
exceeds_mono d (pos n) (pos m) q h e =
    let le : m ≤ n = omega arith in ground (arith, mul-le-mul_right (10 ^ d.places) le)
exceeds_mono d (negsuc n) (pos m) q h e = absurd (omega arith)
exceeds_mono d b (negsuc m) q h e = absurd (omega arith)

cap_bounds :
    (p : Policy) (spendable required reserved : ℤ)
    → pos 0 <ℤ affordable_cap p spendable required reserved
    → (affordable_cap p spendable required reserved ≤ℤ p.max_auto)
      × (affordable_cap p spendable required reserved
          ≤ℤ free_after_obligations spendable required reserved)
unfolding affordable_cap
cap_bounds p spendable required reserved h = (ground arith, ground arith)

decide-Offers :
    (id : String) (s : HandlerState) (l : Ledger) (p : Policy) (m : Option MoneyJudgment)
    (a : ProposedAction) (d : Decimal)
    → (decide id s l p m none).action_choice ≡ allow_smaller
    → s.proposed_action ≡ some a
    → a.amount ≡ some d
    → ((decide id s l p m none).suggested_amount ≡ some (cents (cap_for s l p)))
      × (pos 0 <ℤ cap_for s l p)
      × (exceeds d p.max_auto ≡ true)
      × (exceeds d (free_for a l) ≡ false)
unfolding decide
decide-Offers id s l p m a d h e f =
    let (a', proposed, (d', amount, v)) = apply_rules-Offers s m l p (cap_for s l p) h in
    let same : a' ≡ a = ap (λ (o : Option ProposedAction). get_or o a) (sym proposed ∙ e) in
    let as_given : d' ≡ d =
      ap (λ (o : Option Decimal). get_or o d)
        (sym amount ∙ ap (λ (x : ProposedAction). x.amount) same ∙ f) in
    (
      v.suggested,
      v.offer_positive,
      subst (λ x. exceeds x p.max_auto ≡ true) as_given v.over_auto,
      subst (λ x. exceeds x (free_for a l) ≡ false) as_given
          (subst (λ x. exceeds d' (free_for x l) ≡ false) same v.covered),
    )

cap_for-spend :
    (s : HandlerState) (l : Ledger) (p : Policy) (a : ProposedAction)
    → s.proposed_action ≡ some a
    → is_invest a.type ≡ false
    → cap_for s l p
      ≡ affordable_cap p (balance l "spendable") l.rent_first.required l.rent_first.reserved
unfolding cap_for
cap_for-spend s l p a e n = rw (e, cap_for) (rw n)

cap_for-invest :
    (s : HandlerState) (l : Ledger) (p : Policy) (a : ProposedAction)
    → s.proposed_action ≡ some a
    → is_invest a.type ≡ true
    → cap_for s l p ≡ balance l "savings"
unfolding cap_for
cap_for-invest s l p a e n = rw (e, cap_for) (rw n)

module _ (id : String) (s : HandlerState) (l : Ledger) (p : Policy) (m : Option MoneyJudgment)
    (a : ProposedAction) (d : Decimal) where
  -- Where `decide` offers a smaller amount for a proposal that is no investment, the offer is positive,
  -- needs no confirmation, is free of the rent still owed, and is less than the amount asked for.
  pub decide_offer_bounds :
      (decide id s l p m none).action_choice ≡ allow_smaller
      → s.proposed_action ≡ some a
      → a.amount ≡ some d
      → is_invest a.type ≡ false
      → (offer : ℤ) × ((decide id s l p m none).suggested_amount ≡ some (cents offer))
        × (pos 0 <ℤ offer)
        × (offer ≤ℤ p.max_auto)
        × (offer
            ≤ℤ free_after_obligations
                (balance l "spendable")
                l.rent_first.required
                l.rent_first.reserved)
        × (exceeds d offer ≡ true)
  decide_offer_bounds h e f n =
      let (suggested, positive, over, covered) = decide-Offers id s l p m a d h e f in
      let is_cap = cap_for-spend s l p a e n in
      let b =
        cap_bounds p (balance l "spendable") l.rent_first.required l.rent_first.reserved
          (rw is_cap at positive) in
      let low : cap_for s l p ≤ℤ p.max_auto = rw is_cap b.0 in
      (
        cap_for s l p,
        suggested,
        positive,
        low,
        rw is_cap b.1,
        exceeds_mono d p.max_auto (cap_for s l p) positive low over,
      )

  -- For an investment the offer is all of the savings, and it is never less than the amount asked for.
  invest_offer-IsNotSmaller :
      (decide id s l p m none).action_choice ≡ allow_smaller
      → s.proposed_action ≡ some a
      → a.amount ≡ some d
      → is_invest a.type ≡ true
      → ((decide id s l p m none).suggested_amount ≡ some (cents (balance l "savings")))
        × (exceeds d (balance l "savings") ≡ false)
  unfolding free_for
  invest_offer-IsNotSmaller h e f n =
      let (suggested, positive, over, covered) = decide-Offers id s l p m a d h e f in
      (rw (sym (cap_for-invest s l p a e n)) suggested, rw n at covered)
