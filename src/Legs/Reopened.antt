-- ===== src/Legs/Reopened.antt =====
-- What becomes of an approval when a leg of miriam_agent/hands/settle_funding.py or settle_legs.py fails
-- for a passing reason: `maybe_reopen_challenge` of miriam_agent/hands/settlement.py, and the retap.
use miriam.Prelude.{
  ◌≡◌, refl, sym, true, false, some, String, str_eq, lookup, lookup-insert_self, leb_ℤ, pos,
}
use mathlib.Core.Path.{subst}
use miriam.Decimal.{money}
use miriam.Ledger.{
  Ledger, Challenge, pending, consumed, ok, Result, touch, receipt_for, remember_receipt,
}
use miriam.Ledger.Receipts.{IsProcessed}
use miriam.Store.{LedgerStore}
use miriam.Settlement.{Tap, is_foreign}
use miriam.Settlement.Challenges.{maybe_reopen_challenge, may_reopen, has_retriable, is_retriable}
use miriam.Host.{Desk, Site, Placed, and_next, host_receipt}
use miriam.Host.Frames.{
  IsProcessed-IsStable, save_site-asked, save_site-touched, save_site-result, if-asked,
  and_next-asked,
}
use miriam.Funding.{prepare_onramp, onramp_key, order_id}
use miriam.Funding.Retaps.{prepare_onramp-asked, prepare_onramp-Rejects, HasNoQuote, IsFresh}
use miriam.Legs.Funds.{close_leg-Leaves}
use miriam.Legs.Stored.{Loads, confirm_funding-Loads}
use miriam.Legs.Repeats.{mismatch-asked, close_leg-asked}
use miriam.Host.{leg_receipt}
use miriam.Legs.{
  Settled, refuse_leg, close_leg, confirm_funding, onramp_of, consumed_site, owned_rebalance,
  confirm_rebalance,
}

-- the challenge with this status stands in the ledger
abbrev pub Stands : Challenge → Ledger → Type 0
Stands c l = lookup c.id l.challenges ≡ some c

abbrev pub reopened : Challenge → Challenge
reopened c = record c { status = pending }

module _ {S : Type 0} (store : LedgerStore S) where
  pub close_leg-Reopens :
      (c : Challenge) (out : Placed → String) (p : Placed) (t : Site S)
      → may_reopen p.receipt ≡ true
      → Stands (reopened c) (close_leg store c out p t).1.ledger
  unfolding close_leg maybe_reopen_challenge touch
  close_leg-Reopens c out p t h =
      save_site-touched (Stands (reopened c)) (λ l k. k) store _ _
        (rw h (lookup-insert_self c.id (reopened c) t.ledger.challenges))

  after_reopening :
      (c : Challenge) (out : Placed → String) (r : Result Placed × Site S) (key : String)
      → (p : Placed) × (r.0 ≡ ok p) × (may_reopen p.receipt ≡ true) × IsProcessed key r.1.ledger
      → Stands (reopened c) (and_next r (close_leg store c out)).1.ledger
        × IsProcessed key (and_next r (close_leg store c out)).1.ledger
  after_reopening c out (r, t) key (p, e, h, k) = rw e (
    close_leg-Reopens c out p t h,
    close_leg-Leaves (IsProcessed key) (IsProcessed-IsStable key) store c out p t k,
  )

  confirm_funding-asked :
      (d : Desk) (tap : Tap) (c : Challenge) (t : Site S)
      → IsProcessed (onramp_key (order_id (onramp_of c))) t.ledger
      → (confirm_funding store d tap c t).1.asked ≡ t.asked
  unfolding confirm_funding
  confirm_funding-asked d tap c t h = if-asked _ _ _ (mismatch-asked store d _ c t) (
      and_next-asked _ _ (prepare_onramp-asked store d (onramp_of c) (consumed_site c t) h)
        (λ p t'. close_leg-asked store c _ p t'))

  first_tap-Reopens :
      (d : Desk) (tap : Tap) (c : Challenge) (t : Site S)
      → is_foreign tap c t.ledger ≡ false
      → leb_ℤ (money c.amount) (pos 0) ≡ false
      → IsFresh store d (onramp_of c) t
      → HasNoQuote store d (onramp_of c) t
      → let l = (confirm_funding store d tap c t).1.ledger in
        Stands (reopened c) l × IsProcessed (onramp_key (order_id (onramp_of c))) l
  unfolding confirm_funding receipt_for
  first_tap-Reopens d tap c t own m fresh quote = rw own (
      after_reopening c _ (prepare_onramp store d (onramp_of c) (consumed_site c t)) _
        (prepare_onramp-Rejects store d (onramp_of c) (consumed_site c t) m fresh quote))

  -- A quote that fails for a passing reason reopens the approval in vain. Let the first tap on an
  -- onramp pass the test of the owner, with an amount above nought and no receipt under its two keys,
  -- find no token or have a quote that raises, and return. Then the approval stands open again, for
  -- a retap, on the ledger that the store loads for the user; and yet the next tap on it, whoever
  -- taps and whatever the host would answer, asks the host nothing, since the rejection stands under
  -- the key of the order.
  pub reopened_onramp-IsStuck :
      (d d' : Desk) (tap tap' : Tap) (c : Challenge) (t : Site S) (l : Ledger)
      → is_foreign tap c t.ledger ≡ false
      → leb_ℤ (money c.amount) (pos 0) ≡ false
      → IsFresh store d (onramp_of c) t
      → HasNoQuote store d (onramp_of c) t
      → Loads store t (confirm_funding store d tap c t) l
      → let r = confirm_funding store d tap c t in
        Stands (reopened c) l
        × ((confirm_funding store d' tap' (reopened c) (record r.1 { ledger = l })).1.asked
            ≡ r.1.asked)
  reopened_onramp-IsStuck d d' tap tap' c t l own m fresh quote loads =
      let r = confirm_funding store d tap c t in
      let left = first_tap-Reopens d tap c t own m fresh quote in
      let (stands, kept) =
        subst (λ k. Stands (reopened c) k × IsProcessed (onramp_key (order_id (onramp_of c))) k)
          (sym (confirm_funding-Loads store d tap c t l loads)) left in
      (stands, confirm_funding-asked d' tap' (reopened c) (record r.1 { ledger = l }) kept)

  -- Without a token the approval of a call on the strategy is lost: the tap of its owner asks the
  -- host nothing and leaves the challenge consumed, though the receipt, where one is returned, rejects
  -- it for a reason that reopens a challenge.
  tokenless_rebalance-IsBurnt :
      (d : Desk) (tap : Tap) (c : Challenge) (t : Site S)
      → is_foreign tap c t.ledger ≡ false
      → str_eq d.token "" ≡ true
      → let r = confirm_rebalance store d tap c t in
        (r.1.asked ≡ t.asked)
        × Stands (record c { status = consumed }) r.1.ledger
        × ((s : Settled) → r.0 ≡ ok s → may_reopen s.placed.receipt ≡ true)
  unfolding confirm_rebalance owned_rebalance refuse_leg leg_receipt host_receipt may_reopen
      has_retriable is_retriable touch remember_receipt
  tokenless_rebalance-IsBurnt d tap c t own token = rw own (
      rw token (
        save_site-asked store _ _,
        save_site-touched (Stands (record c { status = consumed })) (λ l k. k) store _ _
            (lookup-insert_self c.id (record c { status = consumed }) t.ledger.challenges),
        λ s e. rw (save_site-result store _ s _ e) refl,
      ))
