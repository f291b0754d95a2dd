-- ===== src/Legs.antt =====
-- The legs that settle a tap at the Go host: the mixins of miriam_agent/hands/settle_legs.py and
-- miriam_agent/hands/settle_funding.py, and the tap as a whole, which `_handle_confirm` of
-- miriam_agent/hands/settlement.py hands over to them. STATE and the narration of a turn are left out,
-- and so is the live card. The investment and the shift of an allocation end where they are entered.
pub mod Rules
pub mod Gate
pub mod Funds
pub mod Onramps
pub mod Retries
pub mod Repeats
pub mod Stored
pub mod Reopened
pub mod Reordered
use miriam.Prelude.{
  ℕ, String, Bool, true, false, ◌&&◌, ◌||◌, not, Option, none, some, List, [], ◌∷◌, Dict, lookup,
  get_or, str_eq, if◌then◌else◌,
}
use Prim.Native.String.{◌++◌ as join}
use miriam.Audit.{
  Receipt, ReceiptStatus, executed, rejected, Reason, challenge_mismatch, glider_unreachable,
  automations_unreachable, no_save_rule, save_rule_update_failed, save_rule_unbound, is_executed,
}
use miriam.Ledger.{Ledger, Challenge, pending, consumed, is_open, Result, ok, err, remember_receipt}
use miriam.Store.{LedgerStore}
use miriam.Settlement.{
  Tap, Leg, invest, order, rebalance, funding, bill, offramp, save_rule, or_text, put_challenge,
  is_foreign, Turn, handed_to, settled, Orchestrator, handle_confirm,
}
use miriam.Transfer.{World}
use miriam.Settlement.Challenges.{maybe_reopen_challenge}
use miriam.Host.{
  Reply, Answer, replied, listed, garbled, raised, cooling_down, Request, list_automations,
  update_automation, Words, Desk, Site, Card, paj_otp, onramp_order, Placed, first_text, ask_host,
  host_receipt, save_site, and_next,
}
use miriam.Funding.{Onramp, prepare_onramp, submit_paj_otp, stage_offramp, meta_text}
use miriam.Rebalance.{prepare_rebalance, prepare_pause, prepare_resume}
use miriam.Bills.{confirm_bill}
use miriam.Orders.{Order, prepare_order}
use miriam.SaveRules.{settle_rule}
use miriam.Host.{leg_receipt}
use miriam.Decimal.{cents, money}

-- what a leg gives back: its receipt and card, and the id that is left to tap
pub record Settled : Type 0 where
  pub placed : Placed
  pub confirm_id : String

abbrev settled_as : {S : Type 0} → String → Placed → Site S → Result Settled × Site S
settled_as id p t = (ok (record { placed = p; confirm_id = id }), t)

-- the id that an onramp leaves to tap
abbrev pub onramp_id : Challenge → Option Card → String
onramp_id c (some (paj_otp id)) = or_text id c.id
onramp_id c (some onramp_order) = ""
onramp_id c _ = c.id

-- `_handle_confirm_funding`
abbrev pub onramp_of : Challenge → Onramp
onramp_of c = record {
  amount = c.amount;
  symbol = c.counterparty;
  provider = or_text (meta_text "provider" c) "paj";
  decision_id = c.decision_id;
  confirm_id = c.id;
}

abbrev pub consumed_site : {S : Type 0} → Challenge → Site S → Site S
consumed_site c t = record t { ledger = put_challenge consumed c t.ledger }

-- the three calls on a strategy
abbrev pub ordered : Challenge → Order
ordered c = record {
  side = get_or (lookup "side" c.meta) "buy";
  symbol = or_text c.counterparty (meta_text "symbol" c);
  amount = cents (money c.amount);
  decision_id = c.decision_id;
}

abbrev pub strategy_of : Challenge → String
strategy_of c = or_text (meta_text "strategy_id" c) (meta_text "strategy" c)

-- `_handle_funding_otp`
abbrev pub otp_id : Challenge → Placed → String
otp_id c p = if is_executed p.receipt.status then "" else c.id

-- how a tap ends: with the turn of a movement of Hands, with that of a leg, or where a leg is entered
pub data TapEnd : Type 0 where
  turned : Result Turn → TapEnd
  legged : Result Settled → TapEnd
  entered : Leg → TapEnd

-- the world of the rail, and what the Go host has been asked
pub record Hall (S : Type 0) : Type 0 where
  pub world : World S
  pub asked : List Request

module _ {S : Type 0} (store : LedgerStore S) where
  -- a refusal of the leg itself: it is remembered and saved
  unfoldable pub refuse_leg : Receipt → String → Site S → Result Settled × Site S
  refuse_leg r id t =
      save_site store (record { placed = record { receipt = r; card = none }; confirm_id = id })
        (record t { ledger = remember_receipt r t.ledger })

  -- `_challenge_mismatch`, `_funding_mismatch`
  unfoldable pub mismatch : Desk → String → Challenge → Site S → Result Settled × Site S
  mismatch d action c t =
      let t' = record t { ledger = put_challenge consumed c t.ledger } in
      refuse_leg (leg_receipt d c action challenge_mismatch t'.ledger) c.id t'

  -- the second save of a leg, and its turn
  unfoldable pub save_settled : (Placed → String) → Placed → Site S → Result Settled × Site S
  save_settled out p t = save_site store (record { placed = p; confirm_id = out p }) t

  -- the approval is reopened where the failure is transient, and the ledger is saved
  unfoldable pub close_leg :
      Challenge → (Placed → String) → Placed → Site S → Result Settled × Site S
  close_leg c out p t =
      save_site store (record { placed = p; confirm_id = out p })
        (record t { ledger = maybe_reopen_challenge c p.receipt t.ledger })

  unfoldable pub confirm_funding : Desk → Tap → Challenge → Site S → Result Settled × Site S
  unfolding is_foreign
  confirm_funding d tap c t =
      if is_foreign tap c t.ledger
      then mismatch d "onramp_prepare" c t
      else and_next (prepare_onramp store d (onramp_of c) (consumed_site c t))
          (close_leg c (λ p. onramp_id c p.card))

  unfoldable pub pause_or_resume : Desk → Challenge → Site S → Result Placed × Site S
  pause_or_resume d c t =
      if str_eq c.action "pause"
      then prepare_pause store d (strategy_of c) t
      else prepare_resume store d (strategy_of c) t

  unfoldable pub run_strategy : Desk → Challenge → Site S → Result Placed × Site S
  run_strategy d c t =
      if str_eq c.action "rebalance"
      then prepare_rebalance store d (strategy_of c) t
      else pause_or_resume d c t

  -- the leg of the owner; without a token there are no calls
  unfoldable pub owned_rebalance : Desk → Challenge → Site S → Result Settled × Site S
  owned_rebalance d c t =
      if str_eq d.token ""
      then refuse_leg (leg_receipt d c (join c.action "_prepare") glider_unreachable t.ledger) c.id
          t
      else and_next (run_strategy d c t) (close_leg c (λ p. c.id))

  -- `_handle_confirm_rebalance`
  unfoldable pub confirm_rebalance : Desk → Tap → Challenge → Site S → Result Settled × Site S
  unfolding is_foreign
  confirm_rebalance d tap c t =
      if is_foreign tap c t.ledger
      then mismatch d (join c.action "_prepare") c t
      else owned_rebalance d c (consumed_site c t)

  -- the order that a challenge stores
  unfoldable pub owned_order : Desk → Challenge → Site S → Result Settled × Site S
  owned_order d c t =
      if str_eq d.token ""
      then refuse_leg (leg_receipt d c "order_prepare" glider_unreachable t.ledger) c.id t
      else and_next (prepare_order store d (ordered c) t) (close_leg c (λ p. c.id))

  -- `_handle_confirm_order`, of an order
  unfoldable pub confirm_order : Desk → Tap → Challenge → Site S → Result Settled × Site S
  unfolding is_foreign
  confirm_order d tap c t =
      if is_foreign tap c t.ledger
      then mismatch d "order_prepare" c t
      else owned_order d c (consumed_site c t)

  -- `_handle_confirm_offramp`
  unfoldable pub confirm_offramp : Desk → Tap → Challenge → Site S → Result Settled × Site S
  unfolding is_foreign
  confirm_offramp d tap c t =
      if is_foreign tap c t.ledger
      then mismatch d "offramp_stage" c t
      else and_next
          (stage_offramp store d c.amount c.counterparty c.decision_id c.id (consumed_site c t))
          (save_settled (λ p. c.id))

  -- `_handle_confirm_save_rule`
  unfoldable pub confirm_save_rule : Desk → Tap → Challenge → Site S → Result Settled × Site S
  unfolding is_foreign
  confirm_save_rule d tap c t =
      if is_foreign tap c t.ledger
      then mismatch d "save_rule_update" c t
      else (let (r, t') = settle_rule d c (consumed_site c t) in
          save_site store
            (record { placed = record { receipt = r; card = none }; confirm_id = c.id })
            (record t' { ledger = remember_receipt r (maybe_reopen_challenge c r t'.ledger) }))

  unfoldable pub funding_otp : Desk → Challenge → String → Site S → Result Settled × Site S
  unfolding is_executed
  funding_otp d c otp t = and_next (submit_paj_otp store d c otp t) (save_settled (otp_id c))

  -- `_handle_confirm_bill`, whose turn leaves nothing to tap
  abbrev pub settle_bill : Desk → Challenge → Site S → Result Settled × Site S
  settle_bill d c t = and_next (confirm_bill store d c t) (settled_as "")

  -- the leg that a tap is handed to, but for the investment and the shift of an allocation
  unfoldable pub run_leg : Leg → Desk → Tap → Challenge → Site S → Option (Result Settled × Site S)
  run_leg funding d tap c t = some (confirm_funding d tap c t)
  run_leg rebalance d tap c t = some (confirm_rebalance d tap c t)
  run_leg offramp d tap c t = some (confirm_offramp d tap c t)
  run_leg save_rule d tap c t = some (confirm_save_rule d tap c t)
  run_leg bill d tap c t = some (settle_bill d c t)
  run_leg order d tap c t = if str_eq c.action "order" then some (confirm_order d tap c t) else none
  run_leg invest d tap c t = none

  abbrev pub site_of : Hall S → Site S
  site_of h = record { ledger = h.world.ledger; store = h.world.store; asked = h.asked }

  abbrev leave : Hall S → Result Settled × Site S → TapEnd × Hall S
  leave h (r, t) = (
    legged r,
    record { world = record h.world { ledger = t.ledger; store = t.store }; asked = t.asked },
  )

  abbrev pub ended_leg : Leg → Hall S → Option (Result Settled × Site S) → TapEnd × Hall S
  ended_leg leg h none = (entered leg, h)
  ended_leg leg h (some r) = leave h r

  unfoldable pub enter : Leg → Desk → Tap → Option Challenge → Hall S → TapEnd × Hall S
  enter leg d tap none h = (entered leg, h)
  enter leg d tap (some c) h = ended_leg leg h (run_leg leg d tap c (site_of h))

  unfoldable pub dispatch : Desk → Tap → Result Turn → Hall S → TapEnd × Hall S
  unfolding lookup
  dispatch d tap (ok (handed_to leg)) h =
      enter leg d tap (lookup tap.confirm_id h.world.ledger.challenges) h
  dispatch d tap r h = (turned r, h)

  -- `_handle_confirm` as a whole, with the legs that it dispatches to
  unfoldable pub handle_tap : Orchestrator → Desk → Tap → Hall S → TapEnd × Hall S
  handle_tap o d tap h =
      let (r, w) = handle_confirm store o tap h.world in dispatch d tap r (record h { world = w })
