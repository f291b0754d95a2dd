-- ===== src/Tests/Judgments.antt =====
-- Runs of Judgment, and of the utterances that it decides.
use miriam.Prelude.{
  ◌≡◌, refl, ◌≤ℤ◌, ◌<ℤ◌, ◌⊎◌, ◌↔◌, arith, ℤ, pos, String, Bool, true, false, Option, none, some,
  List, [], ◌∷◌, ◌++◌,
}
use miriam.Decimal.{Decimal, cents, money}
use miriam.Ledger.{Ledger, balance}
use miriam.Limits.{evaluate_limits, free_after_obligations}
use miriam.Limits.Verdict.{WithinUsage}
use miriam.State.{ProposedAction, ActionType, HandlerState, build_state}
use miriam.Store.Memory.{memory_store}
use miriam.Transfer.{TransferInstruction}
use miriam.Judgment.Answers.{MoneyJudgment, ChoiceAnswer}
use miriam.Judgment.Rules.{apply_rules, is_confident, exceeds}
use miriam.Judgment.Decide.{decide}
use miriam.Judgment.Decide.Acting.{Acts, Authorises, apply_rules-Acts}
use miriam.Judgment.Decide.Agreement.{decide-evaluate_limits}
use miriam.Judgment.Decide.Offers.{decide_offer_bounds}
use miriam.Settlement.{Orchestrator}
use miriam.Settlement.Utterances.{decision_for, handle_utterance}
use miriam.Settlement.Utterances.Authorised.{IsProposed, utterance_sends_as_authorised}
use miriam.Tests.Data.{env, utc, policy, ledger, rail, no_faults, twenty, send_twenty, world}

-- the judge is sure that the words are an order
abbrev sure : String → ChoiceAnswer
sure label = record {
  choice = label;
  confidence = record { coef = pos 9; places = 1 };
  probabilities = none;
}

abbrev an_order : MoneyJudgment
an_order = record { inflow_class = sure "salary"; intent_type = sure "order" }

abbrev state_for : ProposedAction → HandlerState
state_for a = build_state ledger (some policy) (some a) none 864000

apply_rules-Acts_example :
    let s = state_for send_twenty in
    (s.is_ok ≡ true)
    × ((j : MoneyJudgment) × (some an_order ≡ some j)
        × (is_confident j ≡ true)
        × Acts s.proposed_action j ledger policy
            (apply_rules s (some an_order) ledger policy (pos 5000)))
unfolding apply_rules build_state miriam.Prelude.lookup miriam.Decimal.ltb_dec
    free_after_obligations miriam.Prelude.◌-ℤ◌
apply_rules-Acts_example =
    apply_rules-Acts (state_for send_twenty) (some an_order) ledger policy (pos 5000) refl

decide-evaluate_limits_example :
    ((evaluate_limits utc policy
        (money twenty)
        "spendable"
        (balance ledger "spendable")
        (pos 7000)
        (pos 4000)
        (some ledger)
        864000).allowed
      ≡ true)
    ↔ WithinUsage utc policy (money twenty) ledger 864000
unfolding decide build_state miriam.Prelude.lookup miriam.Decimal.ltb_dec free_after_obligations
    miriam.Prelude.◌-ℤ◌ money
decide-evaluate_limits_example =
    decide-evaluate_limits "dec_1" (state_for send_twenty) ledger policy (some an_order) none
      send_twenty twenty utc 864000 refl refl refl refl (omega arith)

-- 60.00 to bob, above the ceiling of 50.00 for acting without asking
abbrev sixty : Decimal
sixty = cents (pos 6000)

abbrev send_sixty : ProposedAction
send_sixty = record send_twenty { amount = some sixty }

decide_offer_bounds_example :
    (offer : ℤ) × ((decide "dec_1"
        (state_for send_sixty)
        ledger
        policy
        (some an_order)
        none).suggested_amount
      ≡ some (cents offer))
    × (pos 0 <ℤ offer)
    × (offer ≤ℤ pos 5000)
    × (offer ≤ℤ free_after_obligations (balance ledger "spendable") (pos 7000) (pos 4000))
    × (exceeds sixty offer ≡ true)
unfolding decide build_state miriam.Prelude.lookup miriam.Decimal.ltb_dec free_after_obligations
    miriam.Prelude.◌-ℤ◌ miriam.Limits.affordable_cap
decide_offer_bounds_example =
    decide_offer_bounds "dec_1" (state_for send_sixty) ledger policy (some an_order) send_sixty
      sixty refl refl refl refl

-- savings of 90.00, and 60.00 of it to be invested
abbrev saver : Ledger
saver = record ledger {
  sleeves =
      ("spendable", pos 10000)
      ∷ ("savings", pos 9000)
      ∷ ("yield", pos 0)
      ∷ ("locked", pos 6000)
      ∷ [];
}

abbrev invest_sixty : ProposedAction
invest_sixty = record {
  type = ActionType.invest;
  amount = some sixty;
  counterparty = "";
  sleeve = "savings";
  side = "";
  category = "";
  rule = none;
}

abbrev saver_state : HandlerState
saver_state = build_state saver (some policy) (some invest_sixty) none 864000

abbrev hands : Orchestrator
hands = record { env = env; faults = no_faults; zone = utc; policy = policy; rail = rail }

utterance_sends_as_authorised_example :
    let d = decision_for memory_store hands "dec_1" (some an_order) (some send_twenty) ledger in
    let w' =
      (handle_utterance memory_store hands "dec_1" (some an_order) (some send_twenty) world).1 in
    (w'.calls ≡ [])
    ⊎ ((a : ProposedAction) × (amount : Decimal) × (j : MoneyJudgment) × (i : TransferInstruction)
        × (some send_twenty ≡ some a)
        × (a.amount ≡ some amount)
        × (some an_order ≡ some j)
        × (w'.calls ≡ i ∷ [])
        × Authorises a amount j.intent_type.choice ledger policy
        × IsProposed ledger a amount d i)
utterance_sends_as_authorised_example =
    utterance_sends_as_authorised memory_store hands "dec_1" (some an_order) (some send_twenty)
      world
