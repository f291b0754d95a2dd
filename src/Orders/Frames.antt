-- ===== src/Orders/Frames.antt =====
-- How `prepare_order` of miriam_agent/hands/orders.py ends: on every branch it remembers one receipt
-- under the key of the order, and otherwise it saves.
use miriam.Prelude.{
  ◌≡◌, refl, arith, Bool, true, false, String, Option, none, some, Bool-cases, inl, inr,
  if◌then◌else◌,
}
use miriam.Audit.{Receipt, Reason}
use miriam.Ledger.{Ledger, Result, Error, ok, err}
use miriam.Store.{LedgerStore}
use miriam.Host.{
  Reply, Answer, replied, listed, garbled, raised, cooling_down, Request, Desk, Site, Card, Placed,
  ask_host, list_strategies, search_assets, host_receipt, remembered, save_site, and_next,
}
use miriam.Rebalance.{place}
use miriam.Orders.{
  Order, order_key, call_of, reject_order, put_order, fill_order, check_execution, check_funding,
  check_live, after_replay, run_order, check_balance, check_asset_id, check_asset, after_search,
  find_asset, after_pick, find_sleeve, check_symbol, is_covered,
}
use miriam.Catalogue.{Pick, broken, missing, picked}
use miriam.Replays.{replay_with, after_stage, obtain_and_replay}

module _ {S : Type 0} (d : Desk) (call : Option String → Request) where
  replay_with-ledger :
      (first : Reply) (t : Site S) → (replay_with d call first t).1.ledger ≡ t.ledger
  unfolding replay_with ask_host
  replay_with-ledger first t = ground arith

  after_stage-ledger : (a : Answer) (t : Site S) → (after_stage d call a t).1.ledger ≡ t.ledger
  unfolding after_stage
  after_stage-ledger (replied first) t = replay_with-ledger first t
  after_stage-ledger (listed _) t = refl
  after_stage-ledger garbled t = refl
  after_stage-ledger raised t = refl
  after_stage-ledger (cooling_down _) t = refl

  pub obtain_and_replay-ledger : (t : Site S) → (obtain_and_replay d call t).1.ledger ≡ t.ledger
  unfolding obtain_and_replay ask_host
  obtain_and_replay-ledger t = after_stage-ledger _ _

-- What holds of a result, given what holds of the site (`I`) until the order is called for, and (`J`)
-- from then on until a receipt is written. It may be shown by the ways in which the call can end: a
-- receipt is remembered, or also saved, under the key of the order, or the save of the pending order
-- raises.
module _ {S : Type 0} (store : LedgerStore S) (d : Desk) (q : Order) (I J : Site S → Type 0)
    (Z : Result Placed × Site S → Type 0)
    (looked_up_sleeve : (t : Site S) → I t → I (ask_host d list_strategies t).1)
    (looked_up_asset : (t : Site S) → I t → I (ask_host d search_assets t).1)
    (weaker : (t : Site S) → I t → J t)
    (ran : (strategy asset : String) (t : Site S)
      → I t
      → is_covered store d q t.ledger ≡ true
      → J (obtain_and_replay d (call_of store d q strategy asset) t).1)
    (saved : (symbol : String) (t : Site S) → J t → J (save_site store symbol t).1)
    (noted : (r : Receipt) (card : Option Card) (t : Site S)
      → r.idempotency_key ≡ order_key d q
      → J t
      → Z (remembered r card t))
    (put : (r : Receipt) (card : Card) (t : Site S)
      → r.idempotency_key ≡ order_key d q
      → J t
      → Z (place store r card t))
    (failed : (e : Error) (t : Site S) → J t → Z (err e, t)) where
  if-Ends : (b : Bool) (x y : Result Placed × Site S) → Z x → Z y → Z (if b then x else y)
  if-Ends true x y h k = h
  if-Ends false x y h k = k

  and_next-Ends :
      {A : Type 0} (r : Result A × Site S) (f : A → Site S → Result Placed × Site S)
      → J r.1
      → ((a : A) (t : Site S) → J t → Z (f a t))
      → Z (and_next r f)
  and_next-Ends (ok a, t) f h k = k a t h
  and_next-Ends (err e, t) f h k = failed e t h

  reject-Ends : (reason : Reason) (t : Site S) → J t → Z (reject_order d q reason t)
  unfolding host_receipt
  reject-Ends reason t h = noted _ _ t refl h

  put_order-Ends :
      (l : Ledger) (r : Reply) (symbol : String) (t : Site S)
      → J t
      → Z (put_order store d q l r symbol t)
  unfolding put_order host_receipt
  put_order-Ends l r symbol t h = put _ _ t refl h

  fill_order-Ends :
      (symbol : String) (r : Reply) (t : Site S) → J t → Z (fill_order store d q symbol r t)
  unfolding fill_order
  fill_order-Ends symbol r t h =
      and_next-Ends (save_site store symbol t) (put_order store d q t.ledger r) (saved symbol t h)
        (put_order-Ends t.ledger r)

  check_execution-Ends :
      (symbol : String) (r : Reply) (t : Site S) → J t → Z (check_execution store d q symbol r t)
  unfolding check_execution
  check_execution-Ends symbol r t h =
      if-Ends _ _ _ (reject-Ends _ t h) (fill_order-Ends symbol r t h)

  check_funding-Ends :
      (symbol : String) (r : Reply) (t : Site S) → J t → Z (check_funding store d q symbol r t)
  unfolding check_funding
  check_funding-Ends symbol r t h =
      if-Ends _ _ _ (reject-Ends _ t h) (check_execution-Ends symbol r t h)

  check_live-Ends :
      (symbol : String) (r : Reply) (t : Site S) → J t → Z (check_live store d q symbol r t)
  unfolding check_live
  check_live-Ends symbol r t h = if-Ends _ _ _ (reject-Ends _ t h) (check_funding-Ends symbol r t h)

  after_replay-Ends :
      (symbol : String) (r : Option Reply) (t : Site S)
      → J t
      → Z (after_replay store d q symbol r t)
  unfolding after_replay
  after_replay-Ends symbol none t h = (reject-Ends _ t h)
  after_replay-Ends symbol (some r) t h =
      if-Ends _ _ _ (reject-Ends _ t h) (check_live-Ends symbol r t h)

  run_order-Ends :
      (strategy asset symbol : String) (t : Site S)
      → I t
      → is_covered store d q t.ledger ≡ true
      → Z (run_order store d q strategy asset symbol t)
  unfolding run_order
  run_order-Ends strategy asset symbol t h c =
      after_replay-Ends symbol _ _ (ran strategy asset t h c)

  check_balance-Ends :
      (strategy : String) (a : Reply) (t : Site S) → I t → Z (check_balance store d q strategy a t)
  unfolding check_balance
  check_balance-Ends strategy a t h = elim (Bool-cases (is_covered store d q t.ledger)) [
    | inl c ↦ rw c (run_order-Ends strategy _ _ t h c)
    | inr c ↦ rw c (reject-Ends _ t (weaker t h))
  ]

  check_asset_id-Ends :
      (strategy : String) (a : Reply) (t : Site S) → I t → Z (check_asset_id store d q strategy a t)
  unfolding check_asset_id
  check_asset_id-Ends strategy a t h =
      if-Ends _ _ _ (reject-Ends _ t (weaker t h)) (check_balance-Ends strategy a t h)

  check_asset-Ends :
      (strategy : String) (a : Option Reply) (t : Site S)
      → I t
      → Z (check_asset store d q strategy a t)
  unfolding check_asset
  check_asset-Ends strategy none t h = (reject-Ends _ t (weaker t h))
  check_asset-Ends strategy (some a) t h =
      if-Ends _ _ _ (reject-Ends _ t (weaker t h)) (check_asset_id-Ends strategy a t h)

  after_search-Ends :
      (strategy : String) (a : Answer) (t : Site S) → I t → Z (after_search store d q strategy a t)
  unfolding after_search
  after_search-Ends strategy a t h =
      if-Ends _ _ _ (reject-Ends _ t (weaker t h)) (check_asset-Ends strategy _ t h)

  find_asset-Ends : (strategy : String) (t : Site S) → I t → Z (find_asset store d q strategy t)
  unfolding find_asset ask_host
  find_asset-Ends strategy t h = after_search-Ends strategy _ _ (looked_up_asset t h)

  after_pick-Ends : (x : Pick) (t : Site S) → I t → Z (after_pick store d q x t)
  unfolding after_pick
  after_pick-Ends broken t h = (reject-Ends _ t (weaker t h))
  after_pick-Ends missing t h = (reject-Ends _ t (weaker t h))
  after_pick-Ends (picked r) t h =
      if-Ends _ _ _ (reject-Ends _ t (weaker t h)) (find_asset-Ends _ t h)

  find_sleeve-Ends : (t : Site S) → I t → Z (find_sleeve store d q t)
  unfolding find_sleeve ask_host
  find_sleeve-Ends t h = after_pick-Ends _ _ (looked_up_sleeve t h)

  pub check_symbol-Ends : (t : Site S) → I t → Z (check_symbol store d q t)
  unfolding check_symbol
  check_symbol-Ends t h = if-Ends _ _ _ (reject-Ends _ t (weaker t h)) (find_sleeve-Ends t h)
