-- ===== src/Orders/Executed.antt =====
-- What an order of miriam_agent/hands/orders.py leaves in the ledger, and what a second tap on it asks.
use miriam.Prelude.{
  ◌≡◌, ◌≢◌, refl, arith, inl, inr, pos, leb_ℤ, String, Option, none, some, Bool-cases, Option-cases,
}
use miriam.Audit.{Receipt}
use miriam.Ledger.{Ledger, Result, ok, err, Error, receipt_for}
use miriam.Ledger.Receipts.{IsProcessed, IsProcessed-key, receipt_for-IsProcessed, receipt_for-some}
use miriam.Store.{LedgerStore}
use miriam.Host.{Desk, Site, Card, Placed, ask_host, host_receipt, remembered}
use miriam.Host.Frames.{
  Leaves, IsStable, IsProcessed-IsStable, save_site-Leaves, remembered-Leaves, prefixed-ne,
  if-Leaves,
}
use miriam.Rebalance.{place}
use miriam.Orders.{
  Order, cents_of, order_key, call_of, check_symbol, check_amount, check_side, is_side, after_prior,
  prepare_order,
}
use miriam.Orders.Frames.{obtain_and_replay-ledger, check_symbol-Ends}

module _ {S : Type 0} (store : LedgerStore S) (d : Desk) (q : Order) where
  module _ (P : Ledger → Type 0) (v : IsStable P) where
    abbrev Holds : Site S → Type 0
    Holds t = P t.ledger

    place-Leaves :
        (r : Receipt) (card : Card) (t : Site S) → P t.ledger → Leaves P (place store r card t)
    unfolding place
    place-Leaves r card t h = save_site-Leaves P v store _ _ (v.noted _ _ h)

    check_symbol-Leaves : (t : Site S) → P t.ledger → Leaves P (check_symbol store d q t)
    unfolding ask_host
    check_symbol-Leaves =
        check_symbol-Ends store d q Holds Holds (Leaves P) (λ t h. h) (λ t h. h) (λ t h. h)
          (λ strategy asset t h c.
            rw (obtain_and_replay-ledger d (call_of store d q strategy asset) t) h)
          (λ symbol t h. save_site-Leaves P v store symbol t h)
          (λ r card t e h. remembered-Leaves P v r card t h)
          (λ r card t e h. place-Leaves r card t h) (λ e t h. h)

    check_amount-Leaves : (t : Site S) → P t.ledger → Leaves P (check_amount store d q t)
    unfolding check_amount
    check_amount-Leaves t h =
        if-Leaves P _ _ _ (remembered-Leaves P v _ _ t h) (check_symbol-Leaves t h)

    check_side-Leaves : (t : Site S) → P t.ledger → Leaves P (check_side store d q t)
    unfolding check_side
    check_side-Leaves t h =
        if-Leaves P _ _ _ (check_amount-Leaves t h) (remembered-Leaves P v _ _ t h)

    after_prior-Leaves :
        (r : Option Receipt) (t : Site S) → P t.ledger → Leaves P (after_prior store d q r t)
    unfolding after_prior
    after_prior-Leaves none t h = check_side-Leaves t h
    after_prior-Leaves (some r) t h = h

    pub prepare_order-Leaves : (t : Site S) → P t.ledger → Leaves P (prepare_order store d q t)
    unfolding prepare_order
    prepare_order-Leaves t h = after_prior-Leaves _ t h

  abbrev key : String
  key = order_key d q

  key-ne : key ≢ ""
  key-ne = prefixed-ne "order-prepare:" _ (omega arith)

  -- where the call returns, the key of the order is processed
  abbrev pub Keyed : Result Placed × Site S → Type 0
  Keyed r = (p : Placed) → r.0 ≡ ok p → IsProcessed key r.1.ledger

  abbrev Anything : Site S → Type 0
  Anything t = Unit {0}

  remembered-Keyed :
      (r : Receipt) (card : Option Card) (t : Site S)
      → r.idempotency_key ≡ key
      → Keyed (remembered r card t)
  unfolding remembered
  remembered-Keyed r card t e p h = IsProcessed-key r t.ledger key e key-ne

  place-Keyed :
      (r : Receipt) (card : Card) (t : Site S)
      → r.idempotency_key ≡ key
      → Keyed (place store r card t)
  unfolding place
  place-Keyed r card t e p h =
      save_site-Leaves (IsProcessed key) (IsProcessed-IsStable key) store _ _
        (IsProcessed-key r t.ledger key e key-ne)

  failed-Keyed : (e : Error) (t : Site S) → Keyed (err e, t)
  failed-Keyed e t p h = cc h

  reject-Keyed : (r : Receipt) (t : Site S) → r.idempotency_key ≡ key → Keyed (remembered r none t)
  reject-Keyed r t e = remembered-Keyed r none t e

  check_symbol-Keyed : (t : Site S) → Keyed (check_symbol store d q t)
  check_symbol-Keyed t =
      check_symbol-Ends store d q Anything Anything Keyed (λ t h. tt) (λ t h. tt) (λ t h. tt)
        (λ strategy asset t h c. tt) (λ symbol t h. tt)
        (λ r card t e h. remembered-Keyed r card t e) (λ r card t e h. place-Keyed r card t e)
        (λ e t h. failed-Keyed e t) t tt

  check_amount-Keyed : (t : Site S) → Keyed (check_amount store d q t)
  unfolding check_amount host_receipt
  check_amount-Keyed t = elim (Bool-cases (leb_ℤ (cents_of q) (pos 0))) [
    | inl e ↦ rw e (remembered-Keyed _ _ t refl)
    | inr e ↦ rw e (check_symbol-Keyed t)
  ]

  check_side-Keyed : (t : Site S) → Keyed (check_side store d q t)
  unfolding check_side host_receipt
  check_side-Keyed t = elim (Bool-cases (is_side store d q q.side)) [
    | inl e ↦ rw e (check_amount-Keyed t)
    | inr e ↦ rw e (remembered-Keyed _ _ t refl)
  ]

  pub prepare_order-Keyed : (t : Site S) → Keyed (prepare_order store d q t)
  unfolding prepare_order after_prior
  prepare_order-Keyed t = elim (Option-cases (receipt_for key d.env.at t.ledger)) [
    | inl e ↦ rw (e, after_prior) (check_side-Keyed t)
    | inr (r, e) ↦ rw (e, after_prior) (λ p h. receipt_for-some key d.env.at t.ledger e)
  ]

  pub prepare_order-asked :
      (t : Site S) → IsProcessed key t.ledger → (prepare_order store d q t).1.asked ≡ t.asked
  unfolding prepare_order after_prior
  prepare_order-asked t h =
      let (r, e) = receipt_for-IsProcessed key d.env.at t.ledger h in rw (e, after_prior) refl
