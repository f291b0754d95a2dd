-- ===== src/Orders/Asked.antt =====
-- What `prepare_order` of miriam_agent/hands/orders.py asks the host to place, and when.
use miriam.Prelude.{
  ◌≡◌, refl, ◌∙◌, ap, arith, ◌⊎◌, inl, inr, pos, leb_ℤ, Bool, true, false, String, Option, none,
  some, List, [], ◌∷◌, ◌++◌, Bool-cases, Option-cases, str_eq, if◌then◌else◌,
}
use mathlib.Core.List.{append-nil}
use miriam.Audit.{Receipt}
use miriam.Ledger.{Ledger, Result, receipt_for}
use miriam.Store.{LedgerStore}
use miriam.Host.{
  Reply, Answer, replied, listed, garbled, raised, cooling_down, Request, create_order,
  list_strategies, search_assets, Desk, Site, Card, Placed, ask_host, remembered,
}
use miriam.Host.Frames.{save_site-asked, remembered-asked}
use miriam.Rebalance.{place}
use miriam.Orders.{
  Order, cents_of, order_key, is_covered, call_of, check_symbol, check_amount, check_side, is_side,
  after_prior, prepare_order,
}
use miriam.Replays.{awaiting, status_of, token_of, replay_with, after_stage, obtain_and_replay}
use miriam.Orders.Frames.{check_symbol-Ends}

abbrev is_create : Request → Bool
is_create (create_order strategy side asset amount token) = true
is_create _ = false

-- the orders among the requests
unfoldable pub creates : List Request → List Request
creates [] = []
creates (q ∷ qs) = let rest = creates qs in if is_create q then q ∷ rest else rest

creates-append :
    (qs : List Request) (q : Request)
    → creates (qs ++ (q ∷ [])) ≡ creates qs ++ (if is_create q then q ∷ [] else [])
unfolding creates
creates-append [] q = ground arith
creates-append (p ∷ qs) q = ground (arith, creates-append qs q)

module _ {S : Type 0} (store : LedgerStore S) (d : Desk) (q : Order) where
  abbrev pub call : String → String → Option String → Request
  call strategy asset = call_of store d q strategy asset

  -- the stage of an order, and its replay with the token that the host has issued
  abbrev pub Staged : List Request → List Request → String → String → Type 0
  Staged base asked strategy asset =
      (creates asked ≡ base ++ (call strategy asset none ∷ []))
      ⊎ ((before : List Request) × (first : Reply) × (d.host before (call strategy asset none)
            ≡ replied first)
          × (str_eq (status_of d first) awaiting ≡ true)
          × (creates asked
              ≡ (base ++ (call strategy asset none ∷ []))
                ++ (call strategy asset (some (token_of first)) ∷ [])))

  -- no order, or one that the stash covers
  abbrev pub OrderAsks : List Request → Ledger → List Request → Type 0
  OrderAsks base l asked =
      (creates asked ≡ base)
      ⊎ ((strategy : String) × (asset : String) × (is_covered store d q l ≡ true)
          × Staged base asked strategy asset)

  module _ (base : List Request) (l : Ledger) where
    abbrev Before : Site S → Type 0
    Before t = (creates t.asked ≡ base) × (t.ledger ≡ l)

    abbrev After : Site S → Type 0
    After t = OrderAsks base l t.asked

    abbrev Ended : Result Placed × Site S → Type 0
    Ended r = OrderAsks base l r.1.asked

    same : (xs ys : List Request) → ys ≡ xs → OrderAsks base l xs → OrderAsks base l ys
    same xs ys e h = rw e h

    module _ (strategy asset : String) (c : is_covered store d q l ≡ true) where
      replay_with-After :
          (first : Reply) (before : List Request) (t : Site S)
          → d.host before (call strategy asset none) ≡ replied first
          → creates t.asked ≡ base ++ (call strategy asset none ∷ [])
          → After (replay_with d (call strategy asset) first t).1
      unfolding replay_with ask_host
      replay_with-After first before t e h =
          elim (Bool-cases (str_eq (status_of d first) awaiting)) [
            | inr f ↦ rw f (inr (strategy, asset, c, inl h))
            | inl f ↦ rw f (elim (Bool-cases (str_eq (d.words.strip (token_of first)) "")) [
              | inl g ↦ rw g (inr (strategy, asset, c, inl h))
              | inr g ↦ rw g (
                  inr (
                    strategy,
                    asset,
                    c,
                    inr (
                      before,
                      first,
                      e,
                      f,
                      creates-append t.asked (call strategy asset (some (token_of first)))
                          ∙ ap
                              (λ (x : List Request).
                                x ++ (call strategy asset (some (token_of first)) ∷ []))
                              h,
                    ),
                  ))
            ])
          ]

      after_stage-After :
          (a : Answer) (before : List Request) (t : Site S)
          → d.host before (call strategy asset none) ≡ a
          → creates t.asked ≡ base ++ (call strategy asset none ∷ [])
          → After (after_stage d (call strategy asset) a t).1
      unfolding after_stage
      after_stage-After (replied first) before t e h = replay_with-After first before t e h
      after_stage-After (listed _) before t e h = inr (strategy, asset, c, inl h)
      after_stage-After garbled before t e h = inr (strategy, asset, c, inl h)
      after_stage-After raised before t e h = inr (strategy, asset, c, inl h)
      after_stage-After (cooling_down _) before t e h = inr (strategy, asset, c, inl h)

      obtain_and_replay-After :
          (t : Site S)
          → creates t.asked ≡ base
          → After (obtain_and_replay d (call strategy asset) t).1
      unfolding obtain_and_replay ask_host
      obtain_and_replay-After t h = after_stage-After _ t.asked _ refl (
          creates-append t.asked (call strategy asset none)
          ∙ ap (λ (x : List Request). x ++ (call strategy asset none ∷ [])) h)

    place-Ended : (r : Receipt) (card : Card) (t : Site S) → After t → Ended (place store r card t)
    unfolding place
    place-Ended r card t h = same t.asked _ (save_site-asked store _ _) h

    looked_up :
        (x : Request) (t : Site S) → is_create x ≡ false → Before t → Before (ask_host d x t).1
    unfolding ask_host
    looked_up x t e (h, k) =
        (creates-append t.asked x ∙ (rw e (append-nil (creates t.asked)) ∙ h), k)

    check_symbol-Ended : (t : Site S) → Before t → Ended (check_symbol store d q t)
    check_symbol-Ended =
        check_symbol-Ends store d q Before After Ended (λ t h. looked_up list_strategies t refl h)
          (λ t h. looked_up search_assets t refl h) (λ t h. inl h.0)
          (λ strategy asset t h c. obtain_and_replay-After strategy asset (rw (← h.1) c) t h.0)
          (λ symbol t h. same t.asked _ (save_site-asked store symbol t) h)
          (λ r card t e h. same t.asked _ (remembered-asked r card t) h)
          (λ r card t e h. place-Ended r card t h) (λ e t h. h)

  -- An order goes out only for what was approved. `prepare_order` asks the host to place nothing, unless
  -- no receipt stands under its key, its side is to buy or to sell, its amount is above nought, and a
  -- purchase does not exceed the stash; then it stages one order, of that side and amount, and at
  -- most repeats that same request with the token that the host has issued in answer to the stage.
  pub prepare_order-Asks :
      (t : Site S)
      → (creates (prepare_order store d q t).1.asked ≡ creates t.asked)
        ⊎ ((receipt_for (order_key d q) d.env.at t.ledger ≡ none)
            × (is_side store d q q.side ≡ true)
            × (leb_ℤ (cents_of q) (pos 0) ≡ false)
            × OrderAsks (creates t.asked) t.ledger (prepare_order store d q t).1.asked)
  unfolding prepare_order after_prior check_side check_amount remembered
  prepare_order-Asks t = elim (Option-cases (receipt_for (order_key d q) d.env.at t.ledger)) [
    | inr (r, e) ↦ rw (e, after_prior) (inl refl)
    | inl e ↦
        rw (e, after_prior)
          (elim (Bool-cases (is_side store d q q.side)) [
            | inr f ↦ rw f (inl refl)
            | inl f ↦ rw f (elim (Bool-cases (leb_ℤ (cents_of q) (pos 0))) [
              | inl g ↦ rw g (inl refl)
              | inr g ↦ rw g (
                  inr (
                    refl,
                    refl,
                    refl,
                    check_symbol-Ended (creates t.asked) t.ledger t (refl, refl),
                  ))
            ])
          ])
  ]
