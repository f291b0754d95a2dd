-- ===== src/Legs/Stored.antt =====
-- What a leg of miriam_agent/hands/settle_legs.py or settle_funding.py leaves in the store: every one of
-- them ends with a save, so the turn after one that has returned loads the ledger it has left.
use miriam.Prelude.{◌≡◌, sym, ap, inl, inr, Bool, true, false, String, str_eq, some, if◌then◌else◌}
use mathlib.Core.Path.{subst}
use miriam.Audit.{Receipt}
use miriam.Ledger.{Ledger, Challenge, Result, ok, err}
use miriam.Store.{LedgerStore}
use miriam.Store.Race.{Result-cases}
use Prim.Native.String.{◌++◌ as join}
use miriam.Settlement.{Tap, is_foreign}
use miriam.Host.{Desk, Site, Placed, save_site, and_next}
use miriam.Funding.{prepare_onramp}
use miriam.Orders.{prepare_order}
use miriam.Legs.Funds.{legs-SameMoney}
use miriam.Legs.{
  Settled, refuse_leg, mismatch, close_leg, confirm_funding, owned_rebalance, confirm_rebalance,
  owned_order, confirm_order, consumed_site, onramp_of, onramp_id, run_strategy, ordered,
}

module _ {S : Type 0} (store : LedgerStore S) where
  -- where a call has returned, the store loads the ledger that it has left
  record IsKept (r : Result Settled × Site S) : Type 0 where
    loads :
        (s : Settled) → r.0 ≡ ok s → store.load r.1.ledger.user_id r.1.store ≡ ok (some r.1.ledger)

  if-IsKept :
      (b : Bool) (x y : Result Settled × Site S) → IsKept x → IsKept y → IsKept (if b then x else y)
  if-IsKept true x y h k = h
  if-IsKept false x y h k = k

  and_next-IsKept :
      (r : Result Placed × Site S) (f : Placed → Site S → Result Settled × Site S)
      → ((p : Placed) (t : Site S) → IsKept (f p t))
      → IsKept (and_next r f)
  and_next-IsKept (ok p, t) f k = k p t
  and_next-IsKept (err e, t) f k = record { loads = λ s h. cc h }

  save_site-IsKept : (a : Settled) (t : Site S) → IsKept (save_site store a t)
  unfolding save_site miriam.Ledger.touch
  save_site-IsKept a t = elim (Result-cases (store.save t.ledger t.store).0) [
    | inl (l', e) ↦
        rw (e, save_site)
          (record {
            loads = λ s h.
                subst (λ x. store.load x (store.save t.ledger t.store).1 ≡ ok (some l'))
                  (ap (λ (l : Ledger). l.user_id) (sym (store.save-ok t.ledger t.store e)))
                  (store.load-save t.ledger t.store e);
          })
    | inr (x, e) ↦ rw (e, save_site) (record { loads = λ s h. cc h })
  ]

  refuse_leg-IsKept : (r : Receipt) (id : String) (t : Site S) → IsKept (refuse_leg store r id t)
  unfolding refuse_leg
  refuse_leg-IsKept r id t = save_site-IsKept _ _

  mismatch-IsKept :
      (d : Desk) (action : String) (c : Challenge) (t : Site S)
      → IsKept (mismatch store d action c t)
  unfolding mismatch
  mismatch-IsKept d action c t = refuse_leg-IsKept _ _ _

  close_leg-IsKept :
      (c : Challenge) (out : Placed → String) (p : Placed) (t : Site S)
      → IsKept (close_leg store c out p t)
  unfolding close_leg
  close_leg-IsKept c out p t = save_site-IsKept _ _

  -- What a later turn works on: where the leg has returned, the ledger that the store then loads for
  -- the user of the ledger before it.
  abbrev pub Loads : Site S → Result Settled × Site S → Ledger → Type 0
  Loads t r l =
      ((s : Settled) × (r.0 ≡ ok s)) × (store.load t.ledger.user_id r.1.store ≡ ok (some l))

  loaded_ledger :
      (t : Site S) (r : Result Settled × Site S) (l : Ledger)
      → IsKept r
      → r.1.ledger.user_id ≡ t.ledger.user_id
      → Loads t r l
      → l ≡ r.1.ledger
  loaded_ledger t r l kept user ((s, e), h) =
      let held : store.load t.ledger.user_id r.1.store ≡ ok (some r.1.ledger) =
        subst (λ x. store.load x r.1.store ≡ ok (some r.1.ledger)) user (kept.loads s e) in
      cc (h, held)

  confirm_funding-IsKept :
      (d : Desk) (tap : Tap) (c : Challenge) (t : Site S) → IsKept (confirm_funding store d tap c t)
  unfolding confirm_funding
  confirm_funding-IsKept d tap c t =
      if-IsKept (is_foreign tap c t.ledger) _ _ (mismatch-IsKept d "onramp_prepare" c t) (
        and_next-IsKept (prepare_onramp store d (onramp_of c) (consumed_site c t)) _
          (close_leg-IsKept c (λ p. onramp_id c p.card)))

  pub confirm_funding-Loads :
      (d : Desk) (tap : Tap) (c : Challenge) (t : Site S) (l : Ledger)
      → Loads t (confirm_funding store d tap c t) l
      → l ≡ (confirm_funding store d tap c t).1.ledger
  confirm_funding-Loads d tap c t l =
      loaded_ledger t (confirm_funding store d tap c t) l (confirm_funding-IsKept d tap c t)
        (legs-SameMoney store d tap c "" t).0.3

  confirm_rebalance-IsKept :
      (d : Desk) (tap : Tap) (c : Challenge) (t : Site S)
      → IsKept (confirm_rebalance store d tap c t)
  unfolding confirm_rebalance owned_rebalance
  confirm_rebalance-IsKept d tap c t =
      if-IsKept (is_foreign tap c t.ledger) _ _ (mismatch-IsKept d (join c.action "_prepare") c t) (
        if-IsKept (str_eq d.token "") _ _ (refuse_leg-IsKept _ c.id (consumed_site c t)) (
          and_next-IsKept (run_strategy store d c (consumed_site c t)) _
            (close_leg-IsKept c (λ p. c.id))))

  pub confirm_rebalance-Loads :
      (d : Desk) (tap : Tap) (c : Challenge) (t : Site S) (l : Ledger)
      → Loads t (confirm_rebalance store d tap c t) l
      → l ≡ (confirm_rebalance store d tap c t).1.ledger
  confirm_rebalance-Loads d tap c t l =
      loaded_ledger t (confirm_rebalance store d tap c t) l (confirm_rebalance-IsKept d tap c t)
        (legs-SameMoney store d tap c "" t).1.3

  confirm_order-IsKept :
      (d : Desk) (tap : Tap) (c : Challenge) (t : Site S) → IsKept (confirm_order store d tap c t)
  unfolding confirm_order owned_order
  confirm_order-IsKept d tap c t =
      if-IsKept (is_foreign tap c t.ledger) _ _ (mismatch-IsKept d "order_prepare" c t) (
        if-IsKept (str_eq d.token "") _ _ (refuse_leg-IsKept _ c.id (consumed_site c t)) (
          and_next-IsKept (prepare_order store d (ordered c) (consumed_site c t)) _
            (close_leg-IsKept c (λ p. c.id))))

  pub confirm_order-Loads :
      (d : Desk) (tap : Tap) (c : Challenge) (t : Site S) (l : Ledger)
      → Loads t (confirm_order store d tap c t) l
      → l ≡ (confirm_order store d tap c t).1.ledger
  confirm_order-Loads d tap c t l =
      loaded_ledger t (confirm_order store d tap c t) l (confirm_order-IsKept d tap c t)
        (legs-SameMoney store d tap c "" t).2.3
