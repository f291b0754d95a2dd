-- ===== src/Funding/Retaps.antt =====
-- A repeated tap on an onramp: `prepare_onramp` of miriam_agent/hands/funding_settle.py answers it
-- with the receipt that stands under the key of the order.
use miriam.Prelude.{
  ◌≡◌, ◌≢◌, refl, arith, ◌⊎◌, inl, inr, leb_ℤ, pos, true, false, Option, none, some, str_eq,
}
use miriam.Decimal.{money, cents}
use miriam.Audit.{Receipt}
use miriam.Ledger.{receipt_for, ok, Result}
use miriam.Ledger.Receipts.{IsProcessed, IsProcessed-key, receipt_for-IsProcessed}
use miriam.Settlement.Challenges.{may_reopen, has_retriable, is_retriable}
use miriam.Store.{LedgerStore}
use miriam.Host.{Placed, raised, get_crypto_quote, Desk, Site, host_receipt, remembered, ask_host}
use miriam.Host.Frames.{if-asked, remembered-asked, prefixed-ne}
use miriam.Funding.{
  Onramp, onramp_key, order_id, initiate_key, after_order, after_prior, after_quote, quote_onramp,
  prepare_onramp,
}

onramp_key-ne : (q : Onramp) → onramp_key (order_id q) ≢ ""
onramp_key-ne q = prefixed-ne "onramp:" _ (omega arith)

module _ {S : Type 0} (store : LedgerStore S) (d : Desk) (q : Onramp) where
  after_order-asked :
      (x : Option Receipt) (t : Site S)
      → (r : Receipt) × (x ≡ some r)
      → (after_order store d q x t).1.asked ≡ t.asked
  unfolding after_order
  after_order-asked x t (r, e) = rw (e, after_order) refl

  -- once the key of the order is processed, the host is asked nothing
  pub prepare_onramp-asked :
      (t : Site S)
      → IsProcessed (onramp_key (order_id q)) t.ledger
      → (prepare_onramp store d q t).1.asked ≡ t.asked
  unfolding prepare_onramp
  prepare_onramp-asked t h = if-asked _ _ _ (remembered-asked _ _ t) (
      after_order-asked _ t (receipt_for-IsProcessed (onramp_key (order_id q)) d.env.at t.ledger h))

  -- there is no token, or the quote raises
  abbrev pub HasNoQuote : Site S → Type 0
  HasNoQuote t =
      (str_eq d.token "" ≡ true)
      ⊎ ((str_eq d.token "" ≡ false)
          × (d.host t.asked (get_crypto_quote (cents (money q.amount))) ≡ raised))

  -- nothing stands under the two keys yet
  abbrev pub IsFresh : Site S → Type 0
  IsFresh t =
      (receipt_for (onramp_key (order_id q)) d.env.at t.ledger ≡ none)
      × (receipt_for (initiate_key (order_id q)) d.env.at t.ledger ≡ none)

  -- a rejection that reopens, under the key of the order
  abbrev pub RejectsUnderKey : Result Placed × Site S → Type 0
  RejectsUnderKey r =
      (p : Placed) × (r.0 ≡ ok p)
      × (may_reopen p.receipt ≡ true)
      × IsProcessed (onramp_key (order_id q)) r.1.ledger

  quote_onramp-Rejects : (t : Site S) → HasNoQuote t → RejectsUnderKey (quote_onramp store d q t)
  unfolding quote_onramp after_quote remembered host_receipt ask_host may_reopen has_retriable
      is_retriable
  quote_onramp-Rejects t (inl e) =
      rw e (_, refl, refl, IsProcessed-key _ t.ledger _ refl (onramp_key-ne q))
  quote_onramp-Rejects t (inr (e, f)) =
      rw e
        (rw (f, after_quote) (_, refl, refl, IsProcessed-key _ t.ledger _ refl (onramp_key-ne q)))

  pub prepare_onramp-Rejects :
      (t : Site S)
      → leb_ℤ (money q.amount) (pos 0) ≡ false
      → IsFresh t
      → HasNoQuote t
      → RejectsUnderKey (prepare_onramp store d q t)
  unfolding prepare_onramp after_order after_prior
  prepare_onramp-Rejects t m (o, i) h =
      rw m (rw (o, after_order) (rw (i, after_prior) (quote_onramp-Rejects t h)))
