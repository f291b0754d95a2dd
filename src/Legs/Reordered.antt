-- ===== src/Legs/Reordered.antt =====
-- A second tap on an order of miriam_agent/hands/settle_legs.py: what `prepare_order` of
-- miriam_agent/hands/orders.py keeps under the order's key answers it.
use miriam.Prelude.{refl, Bool-cases, inl, inr, ◌≡◌, sym, false, String, str_eq}
use mathlib.Core.Path.{subst}
use miriam.Ledger.{Ledger, Challenge, Result, ok, err}
use miriam.Ledger.Receipts.{IsProcessed}
use miriam.Store.{LedgerStore}
use miriam.Settlement.{Tap, is_foreign}
use miriam.Host.{Desk, Site, Placed, and_next}
use miriam.Host.Frames.{IsProcessed-IsStable, if-asked, and_next-asked}
use miriam.Orders.{order_key, prepare_order}
use miriam.Orders.Executed.{Keyed, prepare_order-Keyed, prepare_order-asked}
use miriam.Legs.Funds.{close_leg-Leaves}
use miriam.Legs.Repeats.{refuse_leg-asked, mismatch-asked, close_leg-asked}
use miriam.Legs.Stored.{Loads, confirm_order-Loads}
use miriam.Legs.{Settled, close_leg, consumed_site, ordered, owned_order, confirm_order}

module _ {S : Type 0} (store : LedgerStore S) where
  after_order :
      (d : Desk) (c : Challenge) (out : Placed → String) (r : Result Placed × Site S) (s : Settled)
      → Keyed store d (ordered c) r
      → (and_next r (close_leg store c out)).0 ≡ ok s
      → IsProcessed (order_key d (ordered c)) (and_next r (close_leg store c out)).1.ledger
  after_order d c out (ok p, t) s k h =
      close_leg-Leaves (IsProcessed (order_key d (ordered c))) (IsProcessed-IsStable _) store c out
        p t (k p refl)
  after_order d c out (err e, t) s k h = cc h

  confirm_order-IsProcessed :
      (d : Desk) (tap : Tap) (c : Challenge) (t : Site S) (s : Settled)
      → is_foreign tap c t.ledger ≡ false
      → str_eq d.token "" ≡ false
      → (confirm_order store d tap c t).0 ≡ ok s
      → IsProcessed (order_key d (ordered c)) (confirm_order store d tap c t).1.ledger
  unfolding confirm_order owned_order
  confirm_order-IsProcessed d tap c t s own token = rw own (
      rw token (
        after_order d c (λ p. c.id) (prepare_order store d (ordered c) (consumed_site c t)) s
          (prepare_order-Keyed store d (ordered c) (consumed_site c t))))

  confirm_order-asked :
      (d : Desk) (tap : Tap) (c : Challenge) (t : Site S)
      → IsProcessed (order_key d (ordered c)) t.ledger
      → (confirm_order store d tap c t).1.asked ≡ t.asked
  unfolding confirm_order owned_order
  confirm_order-asked d tap c t h = elim (Bool-cases (is_foreign tap c t.ledger)) [
    | inl e ↦ rw e (mismatch-asked store d _ c t)
    | inr e ↦ rw e (
        if-asked _ _ _ (refuse_leg-asked store _ _ _) (
          and_next-asked _ _ (prepare_order-asked store d (ordered c) (consumed_site c t) h)
            (λ p t'. close_leg-asked store c _ p t')))
  ]

  -- An order is not placed twice, and one that was rejected, for whatever reason, is not retried. Let
  -- a tap on an order pass the test of the owner, with a token, and return, whatever the host has
  -- answered. Then, on the ledger that the store loads for the user, a tap on an order of the same
  -- key, such as the same approval that a passing failure has reopened, asks the host nothing.
  pub second_order-AsksNothing :
      (d d' : Desk) (tap tap' : Tap) (c c' : Challenge) (t : Site S) (l : Ledger)
      → is_foreign tap c t.ledger ≡ false
      → str_eq d.token "" ≡ false
      → order_key d' (ordered c') ≡ order_key d (ordered c)
      → Loads store t (confirm_order store d tap c t) l
      → let r = confirm_order store d tap c t in
        (confirm_order store d' tap' c' (record r.1 { ledger = l })).1.asked ≡ r.1.asked
  second_order-AsksNothing d d' tap tap' c c' t l own token same loads =
      let r = confirm_order store d tap c t in
      let left = confirm_order-IsProcessed d tap c t loads.0.0 own token loads.0.1 in
      let kept : IsProcessed (order_key d (ordered c)) l =
        subst (IsProcessed _) (sym (confirm_order-Loads store d tap c t l loads)) left in
      confirm_order-asked d' tap' c' (record r.1 { ledger = l })
        (subst (λ k. IsProcessed k l) (sym same) kept)
