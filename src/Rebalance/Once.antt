-- ===== src/Rebalance/Once.antt =====
-- How often a strategy is rebalanced, paused or resumed: the receipts of
-- miriam_agent/hands/rebalance.py are kept under keys that name the strategy only.
use miriam.Prelude.{
  ◌≡◌, ◌≢◌, refl, String, Option, some, inl, inr, Bool-cases, Option-cases, str_eq, arith,
}
use miriam.Audit.{Receipt}
use miriam.Ledger.{receipt_for}
use miriam.Ledger.Receipts.{IsProcessed, IsProcessed-key, receipt_for-IsProcessed, receipt_for-some}
use miriam.Store.{LedgerStore}
use miriam.Host.{
  Reply, Answer, replied, listed, garbled, raised, cooling_down, Request, Desk, Site, Card,
  remembered, host_receipt, ask_host,
}
use miriam.Host.Frames.{
  IsProcessed-IsStable, if-Leaves, save_site-Leaves, remembered-asked, if-asked, prefixed-ne,
}
use miriam.Rebalance.{
  strategy_key, place, after_rebalance, rebalance_unless, prepare_rebalance, claim_call,
  after_pause_resume, call_unless, prepare_pause_resume,
}

module _ {S : Type 0} (store : LedgerStore S) where
  module _ (key : String) (named : key ≢ "") where
    remembered-IsProcessed :
        (r : Receipt) (card : Option Card) (t : Site S)
        → r.idempotency_key ≡ key
        → IsProcessed key (remembered r card t).1.ledger
    unfolding remembered
    remembered-IsProcessed r card t e = IsProcessed-key r t.ledger key e named

    place-IsProcessed :
        (r : Receipt) (card : Card) (t : Site S)
        → r.idempotency_key ≡ key
        → IsProcessed key (place store r card t).1.ledger
    unfolding place
    place-IsProcessed r card t e =
        save_site-Leaves (IsProcessed key) (IsProcessed-IsStable key) store _ _
          (IsProcessed-key r t.ledger key e named)

  rebalance_key-ne : (s : String) → strategy_key "rebalance" s ≢ ""
  rebalance_key-ne s = prefixed-ne "rebalance" _ (omega arith)

  module _ (d : Desk) (s : String) where
    abbrev pub k : String
    k = strategy_key "rebalance" s

    after_rebalance-IsProcessed :
        (a : Answer) (t : Site S) → IsProcessed k (after_rebalance store d s a t).1.ledger
    unfolding after_rebalance host_receipt
    after_rebalance-IsProcessed (cooling_down w) t =
        place-IsProcessed k (rebalance_key-ne s) _ _ t refl
    after_rebalance-IsProcessed raised t = remembered-IsProcessed k (rebalance_key-ne s) _ _ t refl
    after_rebalance-IsProcessed garbled t = remembered-IsProcessed k (rebalance_key-ne s) _ _ t refl
    after_rebalance-IsProcessed (listed _) t =
        remembered-IsProcessed k (rebalance_key-ne s) _ _ t refl
    after_rebalance-IsProcessed (replied r) t =
        if-Leaves (IsProcessed k) _ _ _ (remembered-IsProcessed k (rebalance_key-ne s) _ _ t refl)
          (place-IsProcessed k (rebalance_key-ne s) _ _ t refl)

    pub prepare_rebalance-IsProcessed :
        (t : Site S) → IsProcessed k (prepare_rebalance store d s t).1.ledger
    unfolding prepare_rebalance rebalance_unless host_receipt ask_host
    prepare_rebalance-IsProcessed t = elim (Bool-cases (str_eq (d.words.strip s) "")) [
      | inl e ↦ rw e (remembered-IsProcessed k (rebalance_key-ne s) _ _ t refl)
      | inr e ↦ rw e (elim (Option-cases (receipt_for k d.env.at t.ledger)) [
        | inl f ↦ rw f (after_rebalance-IsProcessed _ _)
        | inr (r, f) ↦ rw f (receipt_for-some k d.env.at t.ledger f)
      ])
    ]

    rebalance_unless-asked :
        (x : Option Receipt) (t : Site S)
        → (r : Receipt) × (x ≡ some r)
        → (rebalance_unless store d s x t).1.asked ≡ t.asked
    unfolding rebalance_unless
    rebalance_unless-asked x t (r, e) = rw (e, rebalance_unless) refl

    -- a strategy whose key is processed is not called again
    pub prepare_rebalance-asked :
        (t : Site S) → IsProcessed k t.ledger → (prepare_rebalance store d s t).1.asked ≡ t.asked
    unfolding prepare_rebalance
    prepare_rebalance-asked t h =
        if-asked _ _ _ (remembered-asked _ _ t)
          (rebalance_unless-asked _ t (receipt_for-IsProcessed k d.env.at t.ledger h))

  module _ (d : Desk) (action s : String) (named : strategy_key action s ≢ "") where
    abbrev pub key₀ : String
    key₀ = strategy_key action s

    claim_call-IsProcessed :
        (r : Reply) (t : Site S) → IsProcessed key₀ (claim_call store d action s r t).1.ledger
    unfolding claim_call host_receipt
    claim_call-IsProcessed r t =
        if-Leaves (IsProcessed key₀) _ _ _ (place-IsProcessed key₀ named _ _ t refl)
          (remembered-IsProcessed key₀ named _ _ t refl)

    after_pause_resume-IsProcessed :
        (a : Answer) (t : Site S)
        → IsProcessed key₀ (after_pause_resume store d action s a t).1.ledger
    unfolding after_pause_resume host_receipt
    after_pause_resume-IsProcessed (cooling_down w) t = remembered-IsProcessed key₀ named _ _ t refl
    after_pause_resume-IsProcessed raised t = remembered-IsProcessed key₀ named _ _ t refl
    after_pause_resume-IsProcessed garbled t = remembered-IsProcessed key₀ named _ _ t refl
    after_pause_resume-IsProcessed (listed _) t = remembered-IsProcessed key₀ named _ _ t refl
    after_pause_resume-IsProcessed (replied r) t =
        if-Leaves (IsProcessed key₀) _ _ _ (remembered-IsProcessed key₀ named _ _ t refl)
          (claim_call-IsProcessed r t)

    pub prepare_pause_resume-IsProcessed :
        (q : Request) (t : Site S)
        → IsProcessed key₀ (prepare_pause_resume store d action q s t).1.ledger
    unfolding prepare_pause_resume call_unless host_receipt ask_host
    prepare_pause_resume-IsProcessed q t = elim (Bool-cases (str_eq (d.words.strip s) "")) [
      | inl e ↦ rw e (remembered-IsProcessed key₀ named _ _ t refl)
      | inr e ↦ rw e (elim (Option-cases (receipt_for key₀ d.env.at t.ledger)) [
        | inl f ↦ rw f (after_pause_resume-IsProcessed _ _)
        | inr (r, f) ↦ rw f (receipt_for-some key₀ d.env.at t.ledger f)
      ])
    ]

    call_unless-asked :
        (q : Request) (x : Option Receipt) (t : Site S)
        → (r : Receipt) × (x ≡ some r)
        → (call_unless store d action q s x t).1.asked ≡ t.asked
    unfolding call_unless
    call_unless-asked q x t (r, e) = rw (e, call_unless) refl

    pub prepare_pause_resume-asked :
        (q : Request) (t : Site S)
        → IsProcessed key₀ t.ledger
        → (prepare_pause_resume store d action q s t).1.asked ≡ t.asked
    unfolding prepare_pause_resume
    prepare_pause_resume-asked q t h =
        if-asked _ _ _ (remembered-asked _ _ t)
          (call_unless-asked q _ t (receipt_for-IsProcessed key₀ d.env.at t.ledger h))
