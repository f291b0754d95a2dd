-- ===== src/Orders.antt =====
-- miriam_agent/hands/orders.py: an order for a stock, which is staged at the host and then confirmed
-- with the token that the host has issued. The pending order, which nothing of Hands reads but
-- `settle_order`, is left out, and so is the shift of an allocation.
pub mod Frames
pub mod Executed
pub mod Asked
use miriam.Prelude.{
  String, ℤ, pos, ltb_ℤ, leb_ℤ, Bool, true, false, ◌&&◌, ◌||◌, not, Option, none, some, List, [],
  ◌∷◌, Dict, lookup, str_eq, if◌then◌else◌,
}
use Prim.Native.String.{◌++◌ as join}
use miriam.Decimal.{Decimal, money, cents}
use miriam.Audit.{
  Receipt, ReceiptStatus, executed, rejected, Reason, bad_order_side, bad_amount, unknown_symbol,
  glider_unreachable, sleeve_missing, sleeve_unbound, bad_asset_id, over_balance, glider_not_live,
  still_staged, funding_failed, no_execution,
}
use miriam.Ledger.{Ledger, Result, ok, err, remember_receipt, receipt_for, balance}
use miriam.Store.{LedgerStore}
use miriam.Settlement.{or_text}
use miriam.Host.{
  Leaf, flag, text, Value, leaf, Reply, Answer, replied, listed, garbled, raised, cooling_down,
  Request, list_strategies, search_assets, create_order, Words, Desk, Site, Card, order_confirm,
  Placed, first_text, as_values, nested, rows_at, ask_host, host_receipt, remembered, save_site,
  and_next,
}
use miriam.Rebalance.{order_sleeve, place}
use miriam.Replays.{awaiting, token_of, status_of, replay_with, after_stage, obtain_and_replay}
use miriam.Catalogue.{
  Pick, sleeve_from_catalogue, exact_asset, close_asset, pick_asset, broken, missing, picked,
}

pub record Order : Type 0 where
  pub side : String
  pub symbol : String
  pub amount : Decimal
  pub decision_id : String

abbrev pub cents_of : Order → ℤ
cents_of q = money q.amount

-- `f"order-prepare:{decision_id}:{side}:{symbol}:{amount}"`
abbrev pub order_key : Desk → Order → String
order_key d q = join "order-prepare:" (
    join q.decision_id (
      join ":"
        (join q.side (join ":" (join q.symbol (join ":" (d.env.text (cents (cents_of q)))))))))

abbrev pub order_receipt : Desk → Ledger → ReceiptStatus → Order → List Reason → Receipt
order_receipt d l status q reasons =
    host_receipt d.env l status "order_prepare" (some (cents (cents_of q)))
      (or_text q.symbol "Rail Stock Sleeve") order_sleeve q.decision_id (order_key d q) reasons

-- `_reject`
abbrev pub reject_order : {S : Type 0} → Desk → Order → Reason → Site S → Result Placed × Site S
reject_order d q reason t = remembered (order_receipt d t.ledger rejected q (reason ∷ [])) none t

abbrev is_flag : Bool → Option Value → Bool
is_flag true (some (leaf (flag true))) = true
is_flag false (some (leaf (flag false))) = true
is_flag _ _ = false

-- the reply tells of a simulation
abbrev is_simulated : Reply → Bool
is_simulated r = is_flag true (lookup "simulated" r) || is_flag false (lookup "live" r)

abbrev has_failed : Desk → Reply → Bool
has_failed d r = str_eq (d.words.upper (status_of d (nested "funding" r))) "FAILED"

unfoldable pub execution_of : Desk → Reply → String
unfolding first_text
execution_of d r =
    first_text d.words ("execution_id" ∷ "executionId" ∷ "order_id" ∷ "orderId" ∷ []) r

module _ {S : Type 0} (store : LedgerStore S) (d : Desk) (q : Order) where
  unfoldable pub put_order : Ledger → Reply → String → Site S → Result Placed × Site S
  put_order l r symbol t =
      place store
        (record (order_receipt d l executed q []) {
          counterparty = symbol;
          rail_reference = execution_of d r;
          confirm_id = q.decision_id;
        })
        (order_confirm (execution_of d r)) t

  -- the pending order is saved, and then the receipt
  unfoldable pub fill_order : String → Reply → Site S → Result Placed × Site S
  fill_order symbol r t = and_next (save_site store symbol t) (put_order t.ledger r)

  -- the tests of a completed order
  unfoldable pub check_execution : String → Reply → Site S → Result Placed × Site S
  check_execution symbol r t =
      if str_eq (execution_of d r) ""
      then reject_order d q no_execution t
      else fill_order symbol r t

  unfoldable pub check_funding : String → Reply → Site S → Result Placed × Site S
  unfolding first_text nested
  check_funding symbol r t =
      if has_failed d r then reject_order d q funding_failed t else check_execution symbol r t

  unfoldable pub check_live : String → Reply → Site S → Result Placed × Site S
  check_live symbol r t =
      if is_simulated r then reject_order d q glider_not_live t else check_funding symbol r t

  unfoldable pub after_replay : String → Option Reply → Site S → Result Placed × Site S
  unfolding first_text
  after_replay symbol none t = reject_order d q glider_not_live t
  after_replay symbol (some r) t =
      if str_eq (status_of d r) awaiting
      then reject_order d q still_staged t
      else check_live symbol r t

  abbrev pub call_of : String → String → Option String → Request
  call_of strategy asset token = create_order strategy q.side asset (cents (cents_of q)) token

  -- the call, for an asset of a strategy
  unfoldable pub run_order : String → String → String → Site S → Result Placed × Site S
  run_order strategy asset symbol t =
      let (r, t') = obtain_and_replay d (call_of strategy asset) t in after_replay symbol r t'

  abbrev asset_id : Reply → String
  asset_id a = first_text d.words ("asset_id" ∷ "assetId" ∷ []) a

  abbrev caip19 : Reply → String
  caip19 a = first_text d.words ("caipAssetId" ∷ "caip19" ∷ []) a

  abbrev asset_symbol : Reply → String
  asset_symbol a =
      or_text (first_text d.words ("symbol" ∷ "Symbol" ∷ []) a) (d.words.strip q.symbol)

  -- a purchase within the stash
  abbrev pub is_covered : Ledger → Bool
  is_covered l = not (str_eq q.side "buy" && ltb_ℤ (balance l order_sleeve) (cents_of q))

  unfoldable pub check_balance : String → Reply → Site S → Result Placed × Site S
  unfolding first_text balance
  check_balance strategy a t =
      if is_covered t.ledger
      then run_order strategy (asset_id a) (asset_symbol a) t
      else reject_order d q over_balance t

  unfoldable pub check_asset_id : String → Reply → Site S → Result Placed × Site S
  unfolding first_text
  check_asset_id strategy a t =
      if str_eq (asset_id a) ""
      then reject_order d q unknown_symbol t
      else check_balance strategy a t

  unfoldable pub check_asset : String → Option Reply → Site S → Result Placed × Site S
  unfolding first_text
  check_asset strategy none t = reject_order d q unknown_symbol t
  check_asset strategy (some a) t =
      if not (str_eq (caip19 a) "") && not (d.words.is_caip19 (caip19 a))
      then reject_order d q bad_asset_id t
      else check_asset_id strategy a t

  abbrev assets_of : Answer → List (Option (Dict Leaf))
  assets_of (replied r) = rows_at "assets" r
  assets_of _ = []

  abbrev has_raised : Answer → Bool
  has_raised raised = true
  has_raised (cooling_down _) = true
  has_raised _ = false

  unfoldable pub after_search : String → Answer → Site S → Result Placed × Site S
  unfolding rows_at
  after_search strategy a t =
      if has_raised a
      then reject_order d q glider_unreachable t
      else check_asset strategy (pick_asset d.words (d.words.strip q.symbol) (assets_of a)) t

  unfoldable pub find_asset : String → Site S → Result Placed × Site S
  unfolding ask_host
  find_asset strategy t = let (a, t') = ask_host d search_assets t in after_search strategy a t'

  -- `investment_strategy_id`, and the id of the provider
  abbrev strategy_id : Reply → String
  strategy_id r = d.words.strip (first_text d.words ("strategy_id" ∷ "id" ∷ []) r)

  abbrev glider_id : Reply → String
  glider_id r = first_text d.words ("glider_strategy_id" ∷ "gliderStrategyId" ∷ []) r

  unfoldable pub after_pick : Pick → Site S → Result Placed × Site S
  unfolding first_text
  after_pick broken t = reject_order d q glider_unreachable t
  after_pick missing t = reject_order d q sleeve_missing t
  after_pick (picked r) t =
      if str_eq (strategy_id r) "" || str_eq (glider_id r) ""
      then reject_order d q sleeve_unbound t
      else find_asset (strategy_id r) t

  abbrev pick_of : Answer → Pick
  pick_of (replied r) = sleeve_from_catalogue d.words (rows_at "strategies" r)
  pick_of (listed _) = missing
  pick_of garbled = missing
  pick_of _ = broken

  unfoldable pub find_sleeve : Site S → Result Placed × Site S
  unfolding ask_host rows_at
  find_sleeve t = let (a, t') = ask_host d list_strategies t in after_pick (pick_of a) t'

  abbrev pub is_side : String → Bool
  is_side s = str_eq s "buy" || str_eq s "sell"

  unfoldable pub check_symbol : Site S → Result Placed × Site S
  check_symbol t =
      if str_eq (d.words.strip q.symbol) ""
      then reject_order d q unknown_symbol t
      else find_sleeve t

  unfoldable pub check_amount : Site S → Result Placed × Site S
  check_amount t =
      if leb_ℤ (cents_of q) (pos 0) then reject_order d q bad_amount t else check_symbol t

  unfoldable pub check_side : Site S → Result Placed × Site S
  check_side t = if is_side q.side then check_amount t else reject_order d q bad_order_side t

  unfoldable pub after_prior : Option Receipt → Site S → Result Placed × Site S
  after_prior none t = check_side t
  after_prior (some r) t = (ok (record { receipt = r; card = none }), t)

  -- `prepare_order`
  unfoldable pub prepare_order : Site S → Result Placed × Site S
  prepare_order t = after_prior (receipt_for (order_key d q) d.env.at t.ledger) t
