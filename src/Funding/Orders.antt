-- ===== src/Funding/Orders.antt =====
-- The orders that an onramp places at the host: `prepare_onramp` of
-- miriam_agent/hands/funding_settle.py, and the leg that calls it.
use miriam.Prelude.{
  ◌≡◌, refl, ◌∙◌, ap, arith, ◌⊎◌, inl, inr, Bool, true, false, String, Option, none, some, List, [],
  ◌∷◌, ◌++◌, Bool-cases, str_eq, if◌then◌else◌,
}
use mathlib.Core.List.{append-nil}
use miriam.Decimal.{cents, money}
use miriam.Audit.{Receipt}
use miriam.Ledger.{Result}
use miriam.Store.{LedgerStore}
use miriam.Host.{
  Reply, Answer, replied, listed, garbled, raised, cooling_down, Request, get_crypto_quote,
  paj_initiate_session, funding_create_onramp, Desk, Site, Placed, ask_host,
}
use miriam.Host.Frames.{save_site-asked, remembered-asked}
use miriam.Funding.{
  Onramp, onramp_key, order_id, initiate_key, finish_onramp_order, await_code, after_initiate,
  place_onramp, after_quote, quote_onramp, after_prior, after_order, prepare_onramp,
}
use miriam.FundingCalls.{Written, fine, refused, initiate_paj, create_onramp}
use miriam.Funding.Codes.{order_of, create_onramp-asked, finish_onramp_order-asked}

abbrev is_onramp_order : Request → Bool
is_onramp_order (funding_create_onramp rail amount key id) = true
is_onramp_order _ = false

-- the orders among the requests
unfoldable pub orders : List Request → List Request
orders [] = []
orders (q ∷ qs) = let rest = orders qs in if is_onramp_order q then q ∷ rest else rest

orders-append :
    (qs : List Request) (q : Request)
    → orders (qs ++ (q ∷ [])) ≡ orders qs ++ (if is_onramp_order q then q ∷ [] else [])
unfolding orders
orders-append [] q = ground arith
orders-append (p ∷ qs) q = ground (arith, orders-append qs q)

module _ (d : Desk) (q : Onramp) where
  -- the one order that may be placed, at the rail of this name
  abbrev pub the_order : String → Request
  the_order kind = order_of d kind (cents (money q.amount)) (onramp_key (order_id q)) q.confirm_id

  -- at most that order, beyond the orders that were there
  abbrev pub OneOrder : List Request → List Request → Type 0
  OneOrder before after =
      (orders after ≡ orders before)
      ⊎ ((kind : String) × (orders after ≡ orders before ++ (the_order kind ∷ [])))

  OneOrder-trans :
      (xs ys zs : List Request) → orders ys ≡ orders xs → OneOrder ys zs → OneOrder xs zs
  OneOrder-trans xs ys zs e (inl f) = inl (f ∙ e)
  OneOrder-trans xs ys zs e (inr (k, f)) =
      inr (k, f ∙ ap (λ (x : List Request). x ++ (the_order k ∷ [])) e)

  module _ {S : Type 0} where
    abbrev Asks : Site S → Result Placed × Site S → Type 0
    Asks t r = OneOrder t.asked r.1.asked

    if-Asks :
        (t : Site S) (b : Bool) (x y : Result Placed × Site S)
        → Asks t x
        → Asks t y
        → Asks t (if b then x else y)
    if-Asks t true x y h k = h
    if-Asks t false x y h k = k

    create-Asks :
        (kind : String) (t : Site S)
        → Asks t (
            let (w, t') =
              create_onramp d kind
                (cents (money q.amount))
                true
                (onramp_key (order_id q))
                q.confirm_id
                t in
            finish_onramp_order d (cents (money q.amount)) q w t')
    create-Asks kind t =
        let r =
          create_onramp d kind (cents (money q.amount)) true (onramp_key (order_id q)) q.confirm_id
            t in
        let e = finish_onramp_order-asked d (cents (money q.amount)) q r.0 r.1 in
        elim (create_onramp-asked d kind (cents (money q.amount)) true (onramp_key (order_id q))
          q.confirm_id t) [
            | inl f ↦ inl (ap orders (e ∙ f))
            | inr f ↦ inr (kind, ap orders (e ∙ f) ∙ orders-append t.asked (the_order kind))
          ]

    initiate_paj-orders :
        (t : Site S)
        → orders (initiate_paj d (initiate_key (order_id q)) q.confirm_id t).1.asked
          ≡ orders t.asked
    unfolding initiate_paj ask_host
    initiate_paj-orders t = elim (Bool-cases (str_eq d.token "")) [
      | inl e ↦ rw e refl
      | inr e ↦ rw e (
          orders-append t.asked (paj_initiate_session (initiate_key (order_id q)) q.confirm_id)
          ∙ append-nil (orders t.asked))
    ]

    module _ (store : LedgerStore S) where
      await_code-Asks : (quote : Reply) (t : Site S) → Asks t (await_code store d q quote t)
      unfolding await_code
      await_code-Asks quote t = inl (ap orders (save_site-asked store _ _))

      after_initiate-Asks :
          (quote : Reply) (w : Written) (t : Site S) → Asks t (after_initiate store d q quote w t)
      unfolding after_initiate
      after_initiate-Asks quote (refused _) t = await_code-Asks quote t
      after_initiate-Asks quote (fine raw) t =
          if-Asks t _ _ _ (create-Asks q.provider t) (await_code-Asks quote t)

      place_onramp-Asks : (quote : Reply) (t : Site S) → Asks t (place_onramp store d q quote t)
      unfolding place_onramp
      place_onramp-Asks quote t =
          let r = initiate_paj d (initiate_key (order_id q)) q.confirm_id t in
          if-Asks t _ _ _ (create-Asks "ramp" t) (
            OneOrder-trans t.asked r.1.asked _ (initiate_paj-orders t)
              (after_initiate-Asks quote r.0 r.1))

      after_quote-Asks : (a : Answer) (t : Site S) → Asks t (after_quote store d q a t)
      unfolding after_quote
      after_quote-Asks (replied quote) t =
          if-Asks t _ _ _ (place_onramp-Asks quote t) (inl (ap orders (remembered-asked _ _ t)))
      after_quote-Asks (listed _) t = inl (ap orders (remembered-asked _ _ t))
      after_quote-Asks garbled t = inl (ap orders (remembered-asked _ _ t))
      after_quote-Asks raised t = inl (ap orders (remembered-asked _ _ t))
      after_quote-Asks (cooling_down _) t = inl (ap orders (remembered-asked _ _ t))

      quote_onramp-Asks : (t : Site S) → Asks t (quote_onramp store d q t)
      unfolding quote_onramp ask_host
      quote_onramp-Asks t =
          let quoted = get_crypto_quote (cents (money q.amount)) in
          let t' = record t { asked = t.asked ++ (quoted ∷ []) } in
          if-Asks t _ _ _ (inl (ap orders (remembered-asked _ _ t))) (
            OneOrder-trans t.asked t'.asked _
              (orders-append t.asked quoted ∙ append-nil (orders t.asked)) (after_quote-Asks _ t'))

      after_prior-Asks : (r : Option Receipt) (t : Site S) → Asks t (after_prior store d q r t)
      unfolding after_prior
      after_prior-Asks none t = quote_onramp-Asks t
      after_prior-Asks (some r) t = if-Asks t _ _ _ (inl refl) (quote_onramp-Asks t)

      after_order-Asks : (r : Option Receipt) (t : Site S) → Asks t (after_order store d q r t)
      unfolding after_order
      after_order-Asks none t = after_prior-Asks _ t
      after_order-Asks (some r) t = inl refl

      pub prepare_onramp-Asks : (t : Site S) → Asks t (prepare_onramp store d q t)
      unfolding prepare_onramp
      prepare_onramp-Asks t =
          if-Asks t _ _ _ (inl (ap orders (remembered-asked _ _ t))) (after_order-Asks _ t)
