-- ===== src/Funding/Frames.antt =====
-- What miriam_agent/hands/funding.py and funding_settle.py leave alone: they write receipts and
-- challenges, and nothing else of a ledger.
use miriam.Prelude.{◌≡◌, Bool, true, String, Option, none, some, arith}
use miriam.Decimal.{Decimal}
use miriam.Audit.{Receipt}
use miriam.Ledger.{Ledger, Challenge}
use miriam.Store.{LedgerStore}
use miriam.Host.{
  Reply, Answer, replied, listed, garbled, raised, cooling_down, Desk, Site, ask_host, save_site,
}
use miriam.Host.Frames.{
  Leaves, IsStable, if-Leaves, and_next-Leaves, remembered-Leaves, save_site-Leaves,
}
use miriam.Funding.{
  Onramp, finish_onramp_order, await_code, after_order, after_initiate, place_onramp, after_quote,
  quote_onramp, after_prior, prepare_onramp, order_with_code, after_verify, submit_paj_otp,
  stage_offramp, initiate_key, order_id, bound_onramp,
}
use miriam.FundingCalls.{Written, fine, refused, initiate_paj, verify_otp, create_onramp}

module _ {S : Type 0} where
  initiate_paj-ledger :
      (d : Desk) (key id : String) (t : Site S) → (initiate_paj d key id t).1.ledger ≡ t.ledger
  unfolding initiate_paj ask_host
  initiate_paj-ledger d key id t = ground arith

  verify_otp-ledger :
      (d : Desk) (otp key id : String) (t : Site S)
      → (verify_otp d otp key id t).1.ledger ≡ t.ledger
  unfolding verify_otp ask_host
  verify_otp-ledger d otp key id t = ground arith

  create_onramp-ledger :
      (d : Desk) (kind : String) (amount : Decimal) (b : Bool) (key id : String) (t : Site S)
      → (create_onramp d kind amount b key id t).1.ledger ≡ t.ledger
  unfolding create_onramp ask_host
  create_onramp-ledger d kind amount b key id t = ground arith

module _ {S : Type 0} (P : Ledger → Type 0) (v : IsStable P) where
  finish_onramp_order-Leaves :
      (d : Desk) (amount : Decimal) (q : Onramp) (w : Written) (t : Site S)
      → P t.ledger
      → Leaves P (finish_onramp_order d amount q w t)
  unfolding finish_onramp_order
  finish_onramp_order-Leaves d amount q (refused reasons) t h = remembered-Leaves P v _ _ t h
  finish_onramp_order-Leaves d amount q (fine raw) t h =
      if-Leaves P _ _ _ (remembered-Leaves P v _ _ t h) (remembered-Leaves P v _ _ t h)

  create_and_finish :
      (d : Desk) (kind : String) (asked amount : Decimal) (q : Onramp) (key id : String)
      (t : Site S)
      → P t.ledger
      → Leaves P (
          let (w, t') = create_onramp d kind asked true key id t in
          finish_onramp_order d amount q w t')
  create_and_finish d kind asked amount q key id t h =
      let r = create_onramp d kind asked true key id t in
      finish_onramp_order-Leaves d amount q r.0 r.1
        (rw (create_onramp-ledger d kind asked true key id t) h)

  module _ (store : LedgerStore S) where
    await_code-Leaves :
        (d : Desk) (q : Onramp) (quote : Reply) (t : Site S)
        → P t.ledger
        → Leaves P (await_code store d q quote t)
    unfolding await_code
    await_code-Leaves d q quote t h =
        save_site-Leaves P v store _ _ (v.noted _ _ (v.challenged _ _ h))

    after_initiate-Leaves :
        (d : Desk) (q : Onramp) (quote : Reply) (w : Written) (t : Site S)
        → P t.ledger
        → Leaves P (after_initiate store d q quote w t)
    unfolding after_initiate
    after_initiate-Leaves d q quote (refused _) t h = await_code-Leaves d q quote t h
    after_initiate-Leaves d q quote (fine raw) t h =
        if-Leaves P _ _ _ (create_and_finish d _ _ _ q _ _ t h) (await_code-Leaves d q quote t h)

    place_onramp-Leaves :
        (d : Desk) (q : Onramp) (quote : Reply) (t : Site S)
        → P t.ledger
        → Leaves P (place_onramp store d q quote t)
    unfolding place_onramp
    place_onramp-Leaves d q quote t h =
        let r = initiate_paj d (initiate_key (order_id q)) q.confirm_id t in
        if-Leaves P _ _ _ (create_and_finish d _ _ _ q _ _ t h) (
          after_initiate-Leaves d q quote r.0 r.1
            (rw (initiate_paj-ledger d (initiate_key (order_id q)) q.confirm_id t) h))

    after_quote-Leaves :
        (d : Desk) (q : Onramp) (a : Answer) (t : Site S)
        → P t.ledger
        → Leaves P (after_quote store d q a t)
    unfolding after_quote
    after_quote-Leaves d q (replied quote) t h =
        if-Leaves P _ _ _ (place_onramp-Leaves d q quote t h) (remembered-Leaves P v _ _ t h)
    after_quote-Leaves d q (listed _) t h = remembered-Leaves P v _ _ t h
    after_quote-Leaves d q garbled t h = remembered-Leaves P v _ _ t h
    after_quote-Leaves d q raised t h = remembered-Leaves P v _ _ t h
    after_quote-Leaves d q (cooling_down _) t h = remembered-Leaves P v _ _ t h

    quote_onramp-Leaves :
        (d : Desk) (q : Onramp) (t : Site S) → P t.ledger → Leaves P (quote_onramp store d q t)
    unfolding quote_onramp ask_host
    quote_onramp-Leaves d q t h =
        if-Leaves P _ _ _ (remembered-Leaves P v _ _ t h) (after_quote-Leaves d q _ _ h)

    after_prior-Leaves :
        (d : Desk) (q : Onramp) (r : Option Receipt) (t : Site S)
        → P t.ledger
        → Leaves P (after_prior store d q r t)
    unfolding after_prior
    after_prior-Leaves d q none t h = quote_onramp-Leaves d q t h
    after_prior-Leaves d q (some r) t h = if-Leaves P _ _ _ h (quote_onramp-Leaves d q t h)

    after_order-Leaves :
        (d : Desk) (q : Onramp) (r : Option Receipt) (t : Site S)
        → P t.ledger
        → Leaves P (after_order store d q r t)
    unfolding after_order
    after_order-Leaves d q none t h = after_prior-Leaves d q _ t h
    after_order-Leaves d q (some r) t h = h

    pub prepare_onramp-Leaves :
        (d : Desk) (q : Onramp) (t : Site S) → P t.ledger → Leaves P (prepare_onramp store d q t)
    unfolding prepare_onramp
    prepare_onramp-Leaves d q t h =
        if-Leaves P _ _ _ (remembered-Leaves P v _ _ t h) (after_order-Leaves d q _ t h)

    order_with_code-Leaves :
        (d : Desk) (c : Challenge) (t : Site S)
        → P t.ledger
        → Leaves P (order_with_code store d c t)
    unfolding order_with_code
    order_with_code-Leaves d c t h =
        and_next-Leaves P _ (save_site store)
          (create_and_finish d _ _ _ (bound_onramp c) _ _ _ (v.challenged _ _ h))
          (λ p t' k. save_site-Leaves P v store p t' k)

    after_verify-Leaves :
        (d : Desk) (c : Challenge) (w : Written) (t : Site S)
        → P t.ledger
        → Leaves P (after_verify store d c w t)
    unfolding after_verify
    after_verify-Leaves d c (fine _) t h = order_with_code-Leaves d c t h
    after_verify-Leaves d c (refused reasons) t h = save_site-Leaves P v store _ _ (v.noted _ _ h)

    pub submit_paj_otp-Leaves :
        (d : Desk) (c : Challenge) (otp : String) (t : Site S)
        → P t.ledger
        → Leaves P (submit_paj_otp store d c otp t)
    unfolding submit_paj_otp
    submit_paj_otp-Leaves d c otp t h =
        if-Leaves P _ _ _ (remembered-Leaves P v _ _ t h)
          (after_verify-Leaves d c _ _ (rw (verify_otp-ledger d _ _ _ t) h))

    pub stage_offramp-Leaves :
        (d : Desk) (amount : Decimal) (to decision id : String) (t : Site S)
        → P t.ledger
        → Leaves P (stage_offramp store d amount to decision id t)
    unfolding stage_offramp
    stage_offramp-Leaves d amount to decision id t h =
        save_site-Leaves P v store _ _ (v.noted _ _ h)
