-- ===== src/Rebalance.antt =====
-- miriam_agent/hands/rebalance.py: a strategy is rebalanced, paused or resumed at the host, with no
-- staging. The print of a card is left out.
pub mod Frames
pub mod Once
use miriam.Prelude.{
  String, Bool, true, false, ◌&&◌, ◌||◌, not, Option, none, some, List, [], ◌∷◌, str_eq,
  if◌then◌else◌,
}
use Prim.Native.String.{◌++◌ as join}
use miriam.Audit.{
  Receipt, ReceiptStatus, executed, queued, rejected, Reason, bad_strategy, cooldown,
  glider_not_live, no_execution,
}
use miriam.Ledger.{Ledger, Result, ok, err, remember_receipt, receipt_for}
use miriam.Store.{LedgerStore}
use miriam.Settlement.{or_text}
use miriam.Host.{
  Reply, Answer, replied, listed, garbled, raised, cooling_down, Request, rebalance_strategy,
  pause_strategy, resume_strategy, Desk, Site, Card, rebalance_queued, rebalance_confirm,
  order_confirm, Placed, first_text, nested, ask_host, host_receipt, remembered, save_site,
}

abbrev pub order_sleeve : String
order_sleeve = "savings"

-- the receipt of a call on a strategy, whose id stands for the decision's, under the key
-- `f"{action}-prepare:{strategy_id}"`
abbrev pub strategy_key : String → String → String
strategy_key action strategy = join action (join "-prepare:" strategy)

abbrev pub strategy_receipt :
    Desk → Ledger → ReceiptStatus → String → String → List Reason → Receipt
strategy_receipt d l status action strategy reasons =
    host_receipt d.env l status (join action "_prepare") none "Rail Stock Sleeve" order_sleeve
      strategy (strategy_key action strategy) reasons

-- `_reject_reb`, `_reject_pr`
abbrev pub reject_strategy :
    {S : Type 0} → Desk → String → String → Reason → Site S → Result Placed × Site S
reject_strategy d action strategy reason t =
    remembered (strategy_receipt d t.ledger rejected action strategy (reason ∷ [])) none t

abbrev pub execution_of : Desk → Reply → String
execution_of d r =
    or_text (first_text d.words ("id" ∷ []) (nested "execution" r))
      (first_text d.words ("execution_id" ∷ "executionId" ∷ "operation_id" ∷ "operationId" ∷ []) r)

abbrev pub replayed : {S : Type 0} → Receipt → Site S → Result Placed × Site S
replayed r t = (ok (record { receipt = r; card = none }), t)

-- `str(result.get("status") or result.get("state") or "").lower()`
unfoldable pub told_status : Desk → Reply → String
unfolding first_text
told_status d r = d.words.lower (first_text d.words ("status" ∷ "state" ∷ []) r)

-- the words of the two tests of a status
abbrev is_failure : String → Bool
is_failure s = str_eq s "failed" || (str_eq s "error" || str_eq s "rejected")

abbrev is_success : String → Bool
is_success s =
    str_eq s "ok"
    || (str_eq s "success" || (str_eq s "completed" || (str_eq s "paused" || str_eq s "resumed")))

-- an execution id, an explicit success, or the strategy's own name
abbrev is_claimed : Desk → String → Reply → Bool
is_claimed d status r =
    not (
      str_eq
        (d.words.strip (
          first_text d.words ("execution_id" ∷ "executionId" ∷ "operation_id" ∷ "operationId" ∷ [])
            r))
        "")
    || (is_success status
        || not (str_eq (first_text d.words ("strategy_id" ∷ "strategyId" ∷ []) r) ""))

module _ {S : Type 0} (store : LedgerStore S) where
  -- a receipt that is remembered and saved
  unfoldable pub place : Receipt → Card → Site S → Result Placed × Site S
  place r card t =
      save_site store (record { receipt = r; card = some card })
        (record t { ledger = remember_receipt r t.ledger })

  unfoldable pub after_rebalance : Desk → String → Answer → Site S → Result Placed × Site S
  unfolding first_text nested
  after_rebalance d strategy (cooling_down wait) t =
      place (strategy_receipt d t.ledger queued "rebalance" strategy (cooldown ∷ []))
        (rebalance_queued wait) t
  after_rebalance d strategy raised t = reject_strategy d "rebalance" strategy glider_not_live t
  after_rebalance d strategy garbled t = reject_strategy d "rebalance" strategy no_execution t
  after_rebalance d strategy (listed _) t = reject_strategy d "rebalance" strategy no_execution t
  after_rebalance d strategy (replied r) t =
      if str_eq (execution_of d r) ""
      then reject_strategy d "rebalance" strategy no_execution t
      else place
          (record (strategy_receipt d t.ledger executed "rebalance" strategy []) {
            rail_reference = execution_of d r;
            confirm_id = strategy;
          })
          (rebalance_confirm (execution_of d r)) t

  -- a replayed tap replays the receipt
  unfoldable pub rebalance_unless : Desk → String → Option Receipt → Site S → Result Placed × Site S
  unfolding ask_host
  rebalance_unless d strategy (some r) t = replayed r t
  rebalance_unless d strategy none t =
      let (a, t') = ask_host d (rebalance_strategy strategy) t in after_rebalance d strategy a t'

  -- `prepare_rebalance`
  unfoldable pub prepare_rebalance : Desk → String → Site S → Result Placed × Site S
  unfolding ask_host
  prepare_rebalance d strategy t =
      if str_eq (d.words.strip strategy) ""
      then reject_strategy d "rebalance" strategy bad_strategy t
      else rebalance_unless d strategy
          (receipt_for (strategy_key "rebalance" strategy) d.env.at t.ledger) t

  -- a reply that tells no failure
  unfoldable pub claim_call : Desk → String → String → Reply → Site S → Result Placed × Site S
  unfolding first_text
  claim_call d action strategy r t =
      if is_claimed d (told_status d r) r
      then place (strategy_receipt d t.ledger executed action strategy [])
          (order_confirm (first_text d.words ("execution_id" ∷ []) r)) t
      else reject_strategy d action strategy no_execution t

  unfoldable pub after_pause_resume :
      Desk → String → String → Answer → Site S → Result Placed × Site S
  after_pause_resume d action strategy (replied r) t =
      if is_failure (told_status d r)
      then reject_strategy d action strategy glider_not_live t
      else claim_call d action strategy r t
  after_pause_resume d action strategy garbled t = reject_strategy d action strategy no_execution t
  after_pause_resume d action strategy (listed _) t =
      reject_strategy d action strategy no_execution t
  after_pause_resume d action strategy raised t =
      reject_strategy d action strategy glider_not_live t
  after_pause_resume d action strategy (cooling_down _) t =
      reject_strategy d action strategy glider_not_live t

  unfoldable pub call_unless :
      Desk → String → Request → String → Option Receipt → Site S → Result Placed × Site S
  unfolding ask_host
  call_unless d action call strategy (some r) t = replayed r t
  call_unless d action call strategy none t =
      let (a, t') = ask_host d call t in after_pause_resume d action strategy a t'

  -- `_prepare_pause_resume`, whose call is `pause_strategy` or `resume_strategy`
  unfoldable pub prepare_pause_resume :
      Desk → String → Request → String → Site S → Result Placed × Site S
  unfolding ask_host
  prepare_pause_resume d action call strategy t =
      if str_eq (d.words.strip strategy) ""
      then reject_strategy d action strategy bad_strategy t
      else call_unless d action call strategy
          (receipt_for (strategy_key action strategy) d.env.at t.ledger) t

  abbrev pub prepare_pause : Desk → String → Site S → Result Placed × Site S
  prepare_pause d strategy t = prepare_pause_resume d "pause" (pause_strategy strategy) strategy t

  abbrev pub prepare_resume : Desk → String → Site S → Result Placed × Site S
  prepare_resume d strategy t =
      prepare_pause_resume d "resume" (resume_strategy strategy) strategy t
