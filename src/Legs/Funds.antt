-- ===== src/Legs/Funds.antt =====
-- What the legs of miriam_agent/hands/settle_legs.py and settle_funding.py leave alone: they write
-- receipts and challenges, and no balance.
use miriam.Prelude.{◌≡◌, refl, String, Option, none, some, inl, inr, Bool-cases, arith}
use miriam.Audit.{Receipt}
use miriam.Ledger.{Ledger, Challenge}
use miriam.Store.{LedgerStore}
use miriam.Settlement.{Tap}
use miriam.Settlement.Challenges.{maybe_reopen_challenge, may_reopen}
use miriam.Host.{Reply, Desk, Site, Placed, ask_host}
use miriam.Host.Frames.{
  SameMoney, Leaves, IsStable, SameMoney-IsStable, if-Leaves, and_next-Leaves, save_site-Leaves,
}
use miriam.Bills.{pay, find_network, close_bill, confirm_bill}
use miriam.SaveRules.{update_rule, settle_rule}
use miriam.Legs.{
  refuse_leg, mismatch, save_settled, otp_id, close_leg, confirm_funding, pause_or_resume,
  run_strategy, owned_rebalance, confirm_rebalance, ordered, owned_order, confirm_order,
  confirm_offramp, consumed_site, confirm_save_rule, funding_otp,
}
use miriam.Orders.Executed.{prepare_order-Leaves}
use miriam.Funding.Frames.{prepare_onramp-Leaves, submit_paj_otp-Leaves, stage_offramp-Leaves}
use miriam.Rebalance.Frames.{prepare_rebalance-Leaves, prepare_pause_resume-Leaves}

module _ {S : Type 0} where
  find_network-ledger :
      (d : Desk) (c : Challenge) (t : Site S) → (find_network d c t).1.ledger ≡ t.ledger
  unfolding find_network ask_host
  find_network-ledger d c t = ground arith

  pay-ledger : (d : Desk) (c : Challenge) (t : Site S) → (pay d c t).1.ledger ≡ t.ledger
  unfolding pay ask_host
  pay-ledger d c t = ground (arith, find_network-ledger d c t)

  update_rule-ledger :
      (d : Desk) (c : Challenge) (a : Option Reply) (t : Site S)
      → (update_rule d c a t).1.ledger ≡ t.ledger
  unfolding update_rule ask_host
  update_rule-ledger d c none t = refl
  update_rule-ledger d c (some a) t = refl

  settle_rule-ledger :
      (d : Desk) (c : Challenge) (t : Site S) → (settle_rule d c t).1.ledger ≡ t.ledger
  unfolding settle_rule ask_host
  settle_rule-ledger d c t = grind (arith, update_rule-ledger)

module _ {S : Type 0} (P : Ledger → Type 0) (v : IsStable P) where
  module _ (store : LedgerStore S) where
    pause_or_resume-Leaves :
        (d : Desk) (c : Challenge) (t : Site S)
        → P t.ledger
        → Leaves P (pause_or_resume store d c t)
    unfolding pause_or_resume
    pause_or_resume-Leaves d c t h =
        if-Leaves P _ _ _ (prepare_pause_resume-Leaves P v store d _ _ _ t h)
          (prepare_pause_resume-Leaves P v store d _ _ _ t h)

    run_strategy-Leaves :
        (d : Desk) (c : Challenge) (t : Site S) → P t.ledger → Leaves P (run_strategy store d c t)
    unfolding run_strategy
    run_strategy-Leaves d c t h =
        if-Leaves P _ _ _ (prepare_rebalance-Leaves P v store d _ t h)
          (pause_or_resume-Leaves d c t h)

    refuse_leg-Leaves :
        (r : Receipt) (id : String) (t : Site S) → P t.ledger → Leaves P (refuse_leg store r id t)
    unfolding refuse_leg
    refuse_leg-Leaves r id t h = save_site-Leaves P v store _ _ (v.noted _ _ h)

    mismatch-Leaves :
        (d : Desk) (action : String) (c : Challenge) (t : Site S)
        → P t.ledger
        → Leaves P (mismatch store d action c t)
    unfolding mismatch
    mismatch-Leaves d action c t h = refuse_leg-Leaves _ _ _ (v.challenged _ _ h)

    reopen-Leaves :
        (c : Challenge) (r : Receipt) (l : Ledger) → P l → P (maybe_reopen_challenge c r l)
    unfolding maybe_reopen_challenge
    reopen-Leaves c r l h = elim (Bool-cases (may_reopen r)) [
      | inl e ↦ rw e (v.challenged _ l h)
      | inr e ↦ rw e h
    ]

    pub close_leg-Leaves :
        (c : Challenge) (out : Placed → String) (p : Placed) (t : Site S)
        → P t.ledger
        → Leaves P (close_leg store c out p t)
    unfolding close_leg
    close_leg-Leaves c out p t h =
        save_site-Leaves P v store _ _ (reopen-Leaves c p.receipt t.ledger h)

    pub confirm_funding-Leaves :
        (d : Desk) (tap : Tap) (c : Challenge) (t : Site S)
        → P t.ledger
        → Leaves P (confirm_funding store d tap c t)
    unfolding confirm_funding
    confirm_funding-Leaves d tap c t h = if-Leaves P _ _ _ (mismatch-Leaves d _ c t h) (
        and_next-Leaves P _ _ (prepare_onramp-Leaves P v store d _ _ (v.challenged _ _ h))
          (λ p t'. close_leg-Leaves c _ p t'))

    owned_rebalance-Leaves :
        (d : Desk) (c : Challenge) (t : Site S)
        → P t.ledger
        → Leaves P (owned_rebalance store d c t)
    unfolding owned_rebalance
    owned_rebalance-Leaves d c t h =
        if-Leaves P _ _ _ (refuse_leg-Leaves _ _ t h)
          (and_next-Leaves P _ _ (run_strategy-Leaves d c t h) (λ p t'. close_leg-Leaves c _ p t'))

    pub confirm_rebalance-Leaves :
        (d : Desk) (tap : Tap) (c : Challenge) (t : Site S)
        → P t.ledger
        → Leaves P (confirm_rebalance store d tap c t)
    unfolding confirm_rebalance
    confirm_rebalance-Leaves d tap c t h =
        if-Leaves P _ _ _ (mismatch-Leaves d _ c t h)
          (owned_rebalance-Leaves d c _ (v.challenged _ _ h))

    owned_order-Leaves :
        (d : Desk) (c : Challenge) (t : Site S) → P t.ledger → Leaves P (owned_order store d c t)
    unfolding owned_order
    owned_order-Leaves d c t h = if-Leaves P _ _ _ (refuse_leg-Leaves _ _ t h) (
        and_next-Leaves P _ _ (prepare_order-Leaves store d (ordered c) P v t h)
          (λ p t'. close_leg-Leaves c _ p t'))

    pub confirm_order-Leaves :
        (d : Desk) (tap : Tap) (c : Challenge) (t : Site S)
        → P t.ledger
        → Leaves P (confirm_order store d tap c t)
    unfolding confirm_order
    confirm_order-Leaves d tap c t h =
        if-Leaves P _ _ _ (mismatch-Leaves d _ c t h)
          (owned_order-Leaves d c _ (v.challenged _ _ h))

    save_settled-Leaves :
        (out : Placed → String) (p : Placed) (t : Site S)
        → P t.ledger
        → Leaves P (save_settled store out p t)
    unfolding save_settled
    save_settled-Leaves out p t h = save_site-Leaves P v store _ _ h

    pub confirm_offramp-Leaves :
        (d : Desk) (tap : Tap) (c : Challenge) (t : Site S)
        → P t.ledger
        → Leaves P (confirm_offramp store d tap c t)
    unfolding confirm_offramp
    confirm_offramp-Leaves d tap c t h = if-Leaves P _ _ _ (mismatch-Leaves d _ c t h) (
        and_next-Leaves P _ (save_settled store (λ p. c.id))
          (stage_offramp-Leaves P v store d _ _ _ _ _ (v.challenged _ _ h))
          (λ p t' k. save_settled-Leaves _ p t' k))

    pub confirm_save_rule-Leaves :
        (d : Desk) (tap : Tap) (c : Challenge) (t : Site S)
        → P t.ledger
        → Leaves P (confirm_save_rule store d tap c t)
    unfolding confirm_save_rule
    confirm_save_rule-Leaves d tap c t h = if-Leaves P _ _ _ (mismatch-Leaves d _ c t h) (
        save_site-Leaves P v store _ _ (
          v.noted _ _ (
            reopen-Leaves c _ _
              (rw (settle_rule-ledger d c (consumed_site c t)) (v.challenged _ _ h)))))

    pub confirm_bill-Leaves :
        (d : Desk) (c : Challenge) (t : Site S) → P t.ledger → Leaves P (confirm_bill store d c t)
    unfolding confirm_bill close_bill
    confirm_bill-Leaves d c t h =
        save_site-Leaves P v store _ _ (v.challenged _ _ (v.noted _ _ (rw (pay-ledger d c t) h)))

    pub funding_otp-Leaves :
        (d : Desk) (c : Challenge) (otp : String) (t : Site S)
        → P t.ledger
        → Leaves P (funding_otp store d c otp t)
    unfolding funding_otp
    funding_otp-Leaves d c otp t h =
        and_next-Leaves P _ (save_settled store (otp_id c))
          (submit_paj_otp-Leaves P v store d c otp t h) (λ p t' k. save_settled-Leaves _ p t' k)

-- The legs that a tap is handed to at the Go host move no money of the ledger: whatever the host
-- answers, and also where the store raises, the balances, the movements, the reserved rent and the
-- user of the ledger are the same after the leg, be it an onramp, a call on a strategy, an
-- order, a cash-out, a save rule, a bill, or the code of a recipient.
pub legs-SameMoney :
    {S : Type 0} (store : LedgerStore S) (d : Desk) (tap : Tap) (c : Challenge) (otp : String)
    (t : Site S)
    → SameMoney t.ledger (confirm_funding store d tap c t).1.ledger
      × SameMoney t.ledger (confirm_rebalance store d tap c t).1.ledger
      × SameMoney t.ledger (confirm_order store d tap c t).1.ledger
      × SameMoney t.ledger (confirm_offramp store d tap c t).1.ledger
      × SameMoney t.ledger (confirm_save_rule store d tap c t).1.ledger
      × SameMoney t.ledger (confirm_bill store d c t).1.ledger
      × SameMoney t.ledger (funding_otp store d c otp t).1.ledger
legs-SameMoney store d tap c otp t =
    let P = SameMoney t.ledger in
    let v = SameMoney-IsStable t.ledger in
    let h : P t.ledger = (refl, refl, refl, refl) in
    (
      confirm_funding-Leaves P v store d tap c t h,
      confirm_rebalance-Leaves P v store d tap c t h,
      confirm_order-Leaves P v store d tap c t h,
      confirm_offramp-Leaves P v store d tap c t h,
      confirm_save_rule-Leaves P v store d tap c t h,
      confirm_bill-Leaves P v store d c t h,
      funding_otp-Leaves P v store d c otp t h,
    )
