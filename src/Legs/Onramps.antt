-- ===== src/Legs/Onramps.antt =====
-- The leg of an onramp in miriam_agent/hands/settle_funding.py: the orders that it places at the host.
use miriam.Prelude.{
  ◌≡◌, refl, ◌∙◌, ap, ◌⊎◌, inl, inr, Bool, true, false, String, List, [], ◌∷◌, ◌++◌, if◌then◌else◌,
}
use miriam.Ledger.{Challenge, Result, ok, err}
use miriam.Store.{LedgerStore}
use miriam.Settlement.{Tap, is_foreign}
use miriam.Host.{Desk, Site, Placed, Request, and_next}
use miriam.Funding.Orders.{orders, the_order, OneOrder, prepare_onramp-Asks}
use miriam.Legs.{Settled, close_leg, confirm_funding, onramp_of, consumed_site}
use miriam.Legs.Repeats.{mismatch-asked, close_leg-asked}

-- No further order, or the one order that the challenge stores, where the test of the owner passes.
abbrev OrderIf : Desk → Challenge → Bool → List Request → List Request → Type 0
OrderIf d c foreign before after =
    (orders after ≡ orders before)
    ⊎ ((foreign ≡ false)
        × ((kind : String) × (orders after
              ≡ orders before ++ (the_order d (onramp_of c) kind ∷ []))))

abbrev pub OwnOrder : {S : Type 0} → Desk → Tap → Challenge → Site S → List Request → Type 0
OwnOrder d tap c t after = OrderIf d c (is_foreign tap c t.ledger) t.asked after

module _ {S : Type 0} (store : LedgerStore S) (d : Desk) (tap : Tap) (c : Challenge) where
  if-OrderIf :
      (b : Bool) (before : List Request) (x y : Result Settled × Site S)
      → x.1.asked ≡ before
      → OneOrder d (onramp_of c) before y.1.asked
      → OrderIf d c b before (if b then x else y).1.asked
  if-OrderIf true before x y h k = inl (ap orders h)
  if-OrderIf false before x y h (inl e) = inl e
  if-OrderIf false before x y h (inr e) = inr (refl, e)

  closed-OneOrder :
      (before : List Request) (r : Result Placed × Site S) (out : Placed → String)
      → OneOrder d (onramp_of c) before r.1.asked
      → OneOrder d (onramp_of c) before (and_next r (close_leg store c out)).1.asked
  closed-OneOrder before (ok p, t') out (inl e) =
      inl (ap orders (close_leg-asked store c out p t') ∙ e)
  closed-OneOrder before (ok p, t') out (inr (kind, e)) =
      inr (kind, ap orders (close_leg-asked store c out p t') ∙ e)
  closed-OneOrder before (err x, t') out h = h

  -- A tap on an onramp places at most one order at the host, and only where the tap passes the test
  -- of the challenge's owner: the order has the amount of the challenge in cents and a key made from
  -- its id, whatever the host answers and whether the store raises.
  pub confirm_funding-OwnOrder :
      (t : Site S) → OwnOrder d tap c t (confirm_funding store d tap c t).1.asked
  unfolding confirm_funding
  confirm_funding-OwnOrder t =
      if-OrderIf (is_foreign tap c t.ledger) t.asked _ _ (mismatch-asked store d _ c t) (
        closed-OneOrder t.asked _ _ (prepare_onramp-Asks d (onramp_of c) store (consumed_site c t)))
