-- ===== src/Tests/Retaps.antt =====
-- Runs that tap again on an approval at the Go host.
use miriam.Prelude.{◌≡◌, refl, ◌⊎◌, inl, none, List, [], ◌∷◌, ◌++◌, lookup}
use miriam.Decimal.{money}
use miriam.Ledger.{Ledger, Challenge, receipt_for}
use miriam.State.{ProposedAction, ActionType}
use miriam.Store.Memory.{memory_store}
use miriam.Settlement.{is_foreign}
use miriam.Settlement.Challenges.{staged}
use miriam.Host.{text, leaf, Answer, raised, Request, funding_create_onramp, Desk}
use miriam.Orders.{prepare_order}
use miriam.Legs.Reordered.{second_order-AsksNothing}
use miriam.Legs.{onramp_of, confirm_funding, confirm_rebalance, confirm_order}
use miriam.Legs.Repeats.{StagedFor, second_pause-AsksNothing}
use miriam.Legs.Reopened.{Stands, reopened, reopened_onramp-IsStuck}
use miriam.Legs.Retries.{lost_order-IsSentAgain}
use miriam.Funding.Lost.{quote_of, ramp_order}
use miriam.Tests.Data.{ledger, approved}
use miriam.Tests.Taps.{challenge, the_tap}
use miriam.Tests.Hosts.{answers, desk, site, challenge_for}

abbrev tokenless : Desk
tokenless = record desk { token = "" }

second_order-AsksNothing_example :
    let c = challenge_for "order" in
    let r = confirm_order memory_store desk the_tap c site in
    (confirm_order memory_store tokenless the_tap c (record r.1 { ledger = r.1.ledger })).1.asked
    ≡ r.1.asked
unfolding is_foreign confirm_order miriam.Legs.owned_order prepare_order miriam.Orders.after_prior
    receipt_for lookup miriam.Orders.check_side miriam.Orders.check_amount money
    miriam.Orders.check_symbol miriam.Orders.find_sleeve miriam.Orders.after_pick
    miriam.Catalogue.sleeve_from_catalogue miriam.Orders.find_asset miriam.Orders.after_search
    miriam.Orders.check_asset miriam.Catalogue.pick_asset miriam.Catalogue.close_asset
    miriam.Catalogue.exact_asset miriam.Decimal.round_half_up miriam.Host.ask_host
    miriam.Host.first_text miriam.Host.host_receipt miriam.Host.leg_receipt miriam.Host.nested
    miriam.Host.remembered miriam.Host.rows_at miriam.Host.save_site miriam.Ledger.balance
    miriam.Ledger.find_receipt miriam.Ledger.remember_receipt miriam.Legs.close_leg
    miriam.Orders.after_replay miriam.Orders.check_asset_id miriam.Orders.check_balance
    miriam.Orders.check_execution miriam.Orders.check_funding miriam.Orders.check_live
    miriam.Orders.execution_of miriam.Orders.fill_order miriam.Orders.put_order
    miriam.Orders.run_order miriam.Prelude.insert miriam.Rebalance.place miriam.Replays.after_stage
    miriam.Replays.obtain_and_replay miriam.Replays.replay_with miriam.Replays.token_of
    miriam.Settlement.Challenges.has_retriable miriam.Settlement.Challenges.is_retriable
    miriam.Settlement.Challenges.may_reopen miriam.Settlement.Challenges.maybe_reopen_challenge
    miriam.Store.Memory.save miriam.Store.Memory.load
second_order-AsksNothing_example =
    let c = challenge_for "order" in
    second_order-AsksNothing memory_store desk tokenless the_tap the_tap c c site
      (confirm_order memory_store desk the_tap c site).1.ledger refl refl refl ((_, refl), refl)

-- what has been staged for a call on the strategy
abbrev call_on : ActionType → ProposedAction
call_on type = record {
  type = type;
  amount = none;
  counterparty = "";
  sleeve = "";
  side = "";
  category = "";
  rule = none;
}

abbrev staged_call : ActionType → Challenge
staged_call type = staged 863000 ledger approved (call_on type)

abbrev is_staged : (type : ActionType) → StagedFor type (staged_call type)
is_staged type = (863000, ledger, approved, call_on type, refl, refl)

second_pause-AsksNothing_example :
    let c = staged_call ActionType.pause in
    let c₁ = staged_call ActionType.resume in
    let t₁ = (confirm_rebalance memory_store desk the_tap c site).1 in
    let t' = (confirm_rebalance memory_store desk the_tap c₁ t₁).1 in
    (confirm_rebalance memory_store desk the_tap c t').1.asked ≡ t'.asked
unfolding is_foreign staged confirm_rebalance miriam.Legs.owned_rebalance miriam.Legs.run_strategy
    miriam.Legs.pause_or_resume miriam.Rebalance.prepare_pause_resume lookup
    miriam.Rebalance.call_unless receipt_for miriam.Rebalance.after_pause_resume
    miriam.Rebalance.told_status miriam.Rebalance.claim_call miriam.Rebalance.place
    miriam.Host.save_site miriam.Store.Memory.save miriam.Ledger.remember_receipt
    miriam.Legs.close_leg miriam.Prelude.insert money miriam.Decimal.round_half_up
    miriam.Host.ask_host miriam.Host.first_text miriam.Host.host_receipt miriam.Host.nested
    miriam.Host.remembered miriam.Ledger.find_receipt miriam.Settlement.Challenges.has_retriable
    miriam.Settlement.Challenges.is_retriable miriam.Settlement.Challenges.may_reopen
    miriam.Settlement.Challenges.maybe_reopen_challenge miriam.Store.Memory.load
    miriam.Prelude.set_default
second_pause-AsksNothing_example =
    let c = staged_call ActionType.pause in
    let c₁ = staged_call ActionType.resume in
    let t₁ = (confirm_rebalance memory_store desk the_tap c site).1 in
    second_pause-AsksNothing memory_store desk desk desk the_tap the_tap the_tap c c₁ c site
      t₁.ledger (confirm_rebalance memory_store desk the_tap c₁ t₁).1.ledger
      (is_staged ActionType.pause) (is_staged ActionType.pause) refl refl ((_, refl), refl)
      ((_, refl), refl)

reopened_onramp-IsStuck_example :
    let c = challenge_for "onramp" in
    let r = confirm_funding memory_store tokenless the_tap c site in
    Stands (reopened c) r.1.ledger
    × ((confirm_funding memory_store desk the_tap (reopened c) r.1).1.asked ≡ r.1.asked)
unfolding is_foreign receipt_for money lookup confirm_funding miriam.Funding.prepare_onramp
    miriam.Funding.after_order miriam.Funding.after_prior miriam.Funding.quote_onramp
    miriam.Host.remembered miriam.Legs.close_leg miriam.Host.save_site miriam.Store.Memory.save
    miriam.Settlement.Challenges.maybe_reopen_challenge miriam.Settlement.Challenges.may_reopen
    miriam.Host.host_receipt miriam.Ledger.remember_receipt miriam.Store.Memory.load
    miriam.Prelude.insert
reopened_onramp-IsStuck_example =
    let c = challenge_for "onramp" in
    reopened_onramp-IsStuck memory_store tokenless desk the_tap the_tap c site
      (confirm_funding memory_store tokenless the_tap c site).1.ledger refl refl (refl, refl)
      (inl refl) ((_, refl), refl)

-- a host on which the call for the order raises
abbrev losing : List Request → Request → Answer
losing before (funding_create_onramp rail amount key id) = raised
losing before q = answers before q

abbrev ramp : Challenge
ramp = record challenge { action = "onramp"; meta = ("provider", "ramp") ∷ [] }

lost_order-IsSentAgain_example :
    let r = confirm_funding memory_store (record desk { host = losing }) the_tap ramp site in
    Stands (reopened ramp) r.1.ledger
    × (r.1.asked ≡ quote_of (onramp_of ramp) ∷ ramp_order (onramp_of ramp) ∷ [])
    × ((confirm_funding memory_store desk the_tap (reopened ramp) r.1).1.asked
        ≡ (r.1.asked ++ (quote_of (onramp_of ramp) ∷ [])) ++ (ramp_order (onramp_of ramp) ∷ []))
unfolding is_foreign money lookup miriam.Host.first_text
lost_order-IsSentAgain_example =
    lost_order-IsSentAgain memory_store (record desk { host = losing }) desk the_tap ramp site refl
      refl (refl, refl) (refl, refl, refl, ("rate", leaf (text "1500")) ∷ [], refl, refl) refl
      (refl, refl, refl, ("rate", leaf (text "1500")) ∷ [], refl, refl)
