-- ===== src/Legs/Retries.antt =====
-- A lost order and the next tap: the leg of an onramp in miriam_agent/hands/settle_funding.py, which
-- reopens the approval.
use miriam.Prelude.{◌≡◌, refl, true, false, String, [], ◌∷◌, ◌++◌, leb_ℤ, pos}
use miriam.Decimal.{money}
use miriam.Ledger.{Challenge, Result, touch}
use miriam.Store.{LedgerStore}
use miriam.Settlement.{Tap, is_foreign}
use miriam.Settlement.Challenges.{maybe_reopen_challenge, may_reopen}
use miriam.Host.{Desk, Site, Placed, remembered, and_next}
use miriam.Host.Frames.{save_site-touched, and_next-asked, SameMoney, SameMoney-IsStable}
use miriam.Funding.{Onramp, finish_onramp_order, prepare_onramp}
use miriam.Funding.Codes.{finish_onramp_order-asked}
use miriam.Legs.{confirm_funding, onramp_of, onramp_id, consumed_site, close_leg}
use miriam.Legs.Funds.{confirm_funding-Leaves}
use miriam.Legs.Repeats.{close_leg-asked}
use miriam.Legs.Reopened.{Stands, reopened, close_leg-Reopens}
use miriam.Funding.Lost.{
  Unused, quote_of, ramp_order, Quotes, LosesReply, ordered_at, Reopens, prepare_onramp-Places,
  lost-Reopens,
}

module _ {S : Type 0} (store : LedgerStore S) where
  close_leg-Unused :
      (c : Challenge) (out : Placed → String) (q : Onramp) (p : Placed) (t : Site S)
      → may_reopen p.receipt ≡ true
      → Unused q t.ledger
      → Unused q (close_leg store c out p t).1.ledger
  unfolding close_leg maybe_reopen_challenge touch
  close_leg-Unused c out q p t h u = save_site-touched (Unused q) (λ l k. k) store _ _ (rw h u)

  -- what the leg leaves, where the approval is reopened and the keys stay unused
  closed :
      (c : Challenge) (out : Placed → String) (q : Onramp) (r : Result Placed × Site S)
      → Reopens q r
      → let e = and_next r (close_leg store c out) in
        Stands (reopened c) e.1.ledger × Unused q e.1.ledger × (e.1.asked ≡ r.1.asked)
  closed c out q (r, t) (p, e, h, u) = rw e (
    close_leg-Reopens store c out p t h,
    close_leg-Unused c out q p t h u,
    close_leg-asked store c out p t,
  )

  abbrev leg_out : Challenge → Placed → String
  leg_out c p = onramp_id c p.card

  -- the leg, for its owner
  confirm_funding-own :
      (d : Desk) (tap : Tap) (c : Challenge) (t : Site S)
      → is_foreign tap c t.ledger ≡ false
      → confirm_funding store d tap c t
        ≡ and_next
            (prepare_onramp store d (onramp_of c) (consumed_site c t))
            (close_leg store c (leg_out c))
  unfolding confirm_funding
  confirm_funding-own d tap c t own = rw own refl

  -- the first tap, whose order is lost
  lost_tap :
      (d : Desk) (tap : Tap) (c : Challenge) (t : Site S)
      → is_foreign tap c t.ledger ≡ false
      → leb_ℤ (money c.amount) (pos 0) ≡ false
      → Unused (onramp_of c) t.ledger
      → Quotes d (onramp_of c) t
      → LosesReply d (onramp_of c) t
      → let r = confirm_funding store d tap c t in
        Stands (reopened c) r.1.ledger
        × Unused (onramp_of c) r.1.ledger
        × (r.1.asked ≡ (ordered_at store (onramp_of c) t).asked)
  unfolding finish_onramp_order remembered
  lost_tap d tap c t own m u quotes lost =
      let q = onramp_of c in
      let t' = consumed_site c t in
      rw (confirm_funding-own d tap c t own) (
        rw (prepare_onramp-Places store d q t' m u quotes)
          (rw lost (closed c (leg_out c) q _ (lost-Reopens d q (ordered_at store q t') u))))

  -- a tap whose order is sent, whatever the answer
  sent_tap :
      (d : Desk) (tap : Tap) (c : Challenge) (t : Site S)
      → is_foreign tap c t.ledger ≡ false
      → leb_ℤ (money c.amount) (pos 0) ≡ false
      → Unused (onramp_of c) t.ledger
      → Quotes d (onramp_of c) t
      → (confirm_funding store d tap c t).1.asked ≡ (ordered_at store (onramp_of c) t).asked
  sent_tap d tap c t own m u quotes =
      let q = onramp_of c in
      let t' = consumed_site c t in
      rw (confirm_funding-own d tap c t own) (
        rw (prepare_onramp-Places store d q t' m u quotes) (
          and_next-asked _ _ (finish_onramp_order-asked d _ q _ _)
            (λ p t₁. close_leg-asked store c (leg_out c) p t₁)))

  still_own :
      (d : Desk) (tap : Tap) (c : Challenge) (t : Site S)
      → is_foreign tap c t.ledger ≡ false
      → is_foreign tap (reopened c) (confirm_funding store d tap c t).1.ledger ≡ false
  unfolding is_foreign
  still_own d tap c t own =
      let (sleeves, movements, rent, user) =
        confirm_funding-Leaves (SameMoney t.ledger) (SameMoney-IsStable t.ledger) store d tap c t
          (refl, refl, refl, refl) in
      rw user own

  -- An order whose reply is lost is sent again. Where the first tap that passes the test of the
  -- owner, on an onramp at the rail "ramp" (which lower case leaves alone) with an amount above
  -- nought, finds a token, a quote and unused keys, and the call for the order then raises, the
  -- approval stands open again; and the same user's next tap, wherever there is a token and a quote,
  -- asks for the same order once more under the same key, for the host to replay.
  pub lost_order-IsSentAgain :
      (d d' : Desk) (tap : Tap) (c : Challenge) (t : Site S)
      → is_foreign tap c t.ledger ≡ false
      → leb_ℤ (money c.amount) (pos 0) ≡ false
      → Unused (onramp_of c) t.ledger
      → Quotes d (onramp_of c) t
      → LosesReply d (onramp_of c) t
      → Quotes d' (onramp_of c) (confirm_funding store d tap c t).1
      → let r = confirm_funding store d tap c t in
        Stands (reopened c) r.1.ledger
        × (r.1.asked
            ≡ (t.asked ++ (quote_of (onramp_of c) ∷ [])) ++ (ramp_order (onramp_of c) ∷ []))
        × ((confirm_funding store d' tap (reopened c) r.1).1.asked
            ≡ (r.1.asked ++ (quote_of (onramp_of c) ∷ [])) ++ (ramp_order (onramp_of c) ∷ []))
  lost_order-IsSentAgain d d' tap c t own m u quotes lost again =
      let (stands, unused, asked) = lost_tap d tap c t own m u quotes lost in
      (
        stands,
        asked,
        sent_tap d' tap (reopened c) (confirm_funding store d tap c t).1 (still_own d tap c t own) m
            unused again,
      )
