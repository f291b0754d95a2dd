-- ===== src/Legs/Repeats.antt =====
-- Taps that repeat a leg of miriam_agent/hands/settle_legs.py or settle_funding.py: what the host is
-- asked again, and what it is not.
use miriam.Prelude.{
  sym, ◌≡◌, ◌≢◌, refl, arith, ℕ, inl, inr, false, String, Bool-cases, str_eq, lookup,
}
use mathlib.Core.Path.{subst}
use miriam.Audit.{Receipt}
use miriam.Ledger.{Ledger, Challenge}
use miriam.Ledger.Receipts.{IsProcessed}
use miriam.State.{ProposedAction, ActionType, Decision}
use miriam.Store.{LedgerStore}
use miriam.Settlement.{Tap, is_foreign}
use miriam.Settlement.Challenges.{staged, meta_of}
use miriam.Host.{Desk, Site, Placed}
use miriam.Host.Frames.{
  IsProcessed-IsStable, save_site-asked, if-asked, and_next-asked, and_next-Leaves, prefixed-ne,
}
use miriam.Rebalance.{strategy_key}
use miriam.Rebalance.Once.{prepare_pause_resume-IsProcessed, prepare_pause_resume-asked}
use miriam.Legs.Stored.{Loads, confirm_rebalance-Loads}
use miriam.Legs.Funds.{close_leg-Leaves, confirm_rebalance-Leaves}
use miriam.Legs.{
  refuse_leg, mismatch, close_leg, consumed_site, strategy_of, run_strategy, pause_or_resume,
  owned_rebalance, confirm_rebalance,
}

module _ {S : Type 0} (store : LedgerStore S) where
  pub refuse_leg-asked :
      (r : Receipt) (id : String) (t : Site S) → (refuse_leg store r id t).1.asked ≡ t.asked
  unfolding refuse_leg
  refuse_leg-asked r id t = save_site-asked store _ _

  pub mismatch-asked :
      (d : Desk) (action : String) (c : Challenge) (t : Site S)
      → (mismatch store d action c t).1.asked ≡ t.asked
  unfolding mismatch
  mismatch-asked d action c t = refuse_leg-asked _ _ _

  pub close_leg-asked :
      (c : Challenge) (out : Placed → String) (p : Placed) (t : Site S)
      → (close_leg store c out p t).1.asked ≡ t.asked
  unfolding close_leg
  close_leg-asked c out p t = save_site-asked store _ _

  pause_key-ne : (s : String) → strategy_key "pause" s ≢ ""
  pause_key-ne s = prefixed-ne "pause" _ (omega arith)

  run_pause-IsProcessed :
      (d : Desk) (c : Challenge) (t : Site S)
      → c.action ≡ "pause"
      → IsProcessed (strategy_key "pause" (strategy_of c)) (run_strategy store d c t).1.ledger
  unfolding run_strategy pause_or_resume
  run_pause-IsProcessed d c t e = rw e (
      prepare_pause_resume-IsProcessed store d "pause" (strategy_of c)
        (pause_key-ne (strategy_of c)) _ t)

  run_pause-asked :
      (d : Desk) (c : Challenge) (t : Site S)
      → c.action ≡ "pause"
      → IsProcessed (strategy_key "pause" (strategy_of c)) t.ledger
      → (run_strategy store d c t).1.asked ≡ t.asked
  unfolding run_strategy pause_or_resume
  run_pause-asked d c t e h = rw e (
      prepare_pause_resume-asked store d "pause" (strategy_of c) (pause_key-ne (strategy_of c)) _ t
        h)

  -- a leg whose call asks nothing asks nothing
  confirm_rebalance-asked :
      (d : Desk) (tap : Tap) (c : Challenge) (t : Site S)
      → (run_strategy store d c (consumed_site c t)).1.asked ≡ t.asked
      → (confirm_rebalance store d tap c t).1.asked ≡ t.asked
  unfolding confirm_rebalance owned_rebalance
  confirm_rebalance-asked d tap c t h = elim (Bool-cases (is_foreign tap c t.ledger)) [
    | inl e ↦ rw e (mismatch-asked d _ c t)
    | inr e ↦ rw e (
        if-asked _ _ _ (refuse_leg-asked _ _ _)
          (and_next-asked _ _ h (λ p t'. close_leg-asked c _ p t')))
  ]

  -- a leg that is the owner's and has a token keeps the key of its call
  confirm_rebalance-IsProcessed :
      (key : String) (d : Desk) (tap : Tap) (c : Challenge) (t : Site S)
      → is_foreign tap c t.ledger ≡ false
      → str_eq d.token "" ≡ false
      → IsProcessed key (run_strategy store d c (consumed_site c t)).1.ledger
      → IsProcessed key (confirm_rebalance store d tap c t).1.ledger
  unfolding confirm_rebalance owned_rebalance
  confirm_rebalance-IsProcessed key d tap c t e f h = rw e (
      rw f (
        and_next-Leaves (IsProcessed key) _ _ h
          (λ p t'. close_leg-Leaves (IsProcessed key) (IsProcessed-IsStable key) store c _ p t')))

-- A challenge that `_create_challenge` has staged for a type of action.
abbrev pub StagedFor : ActionType → Challenge → Type 0
StagedFor type c =
    (now : ℕ) × (l : Ledger) × (v : Decision) × (a : ProposedAction) × (a.type ≡ type)
    × (c ≡ staged now l v a)

-- every call on a strategy that is staged names the one strategy there is
abbrev the_strategy : String
the_strategy = "rail-stock-sleeve"

staged_pause :
    (c : Challenge)
    → StagedFor ActionType.pause c
    → (c.action ≡ "pause") × (strategy_of c ≡ the_strategy)
unfolding staged meta_of lookup
staged_pause c (now, l, v, a, e, f) = rw f (rw e (refl, refl))

module _ {S : Type 0} (store : LedgerStore S) where
  pause-IsProcessed :
      (d : Desk) (tap : Tap) (c : Challenge) (t : Site S)
      → StagedFor ActionType.pause c
      → is_foreign tap c t.ledger ≡ false
      → str_eq d.token "" ≡ false
      → IsProcessed (strategy_key "pause" the_strategy) (confirm_rebalance store d tap c t).1.ledger
  pause-IsProcessed d tap c t s own token =
      let (action, strategy) = staged_pause c s in
      confirm_rebalance-IsProcessed store _ d tap c t own token (
        subst
          (λ x.
            IsProcessed (strategy_key "pause" x)
              (run_strategy store d c (consumed_site c t)).1.ledger)
          strategy (run_pause-IsProcessed store d c (consumed_site c t) action))

  -- A sleeve that has been resumed cannot be paused again, and a pause that was rejected, for
  -- whatever reason, cannot be retried. Let a tap on a staged pause pass the test of the owner, with
  -- a token, and return, whatever the host has answered; let then, on the ledger that the store loads
  -- for the user, any tap on a call on the strategy, such as a resume, return. On the ledger that the
  -- store then loads, a tap on a staged pause, the same or another, asks the host nothing: the
  -- first receipt stands under a key that names the strategy only.
  pub second_pause-AsksNothing :
      (d d₁ d' : Desk) (tap tap₁ tap' : Tap) (c c₁ c' : Challenge) (t : Site S) (l l₁ : Ledger)
      → StagedFor ActionType.pause c
      → StagedFor ActionType.pause c'
      → is_foreign tap c t.ledger ≡ false
      → str_eq d.token "" ≡ false
      → Loads store t (confirm_rebalance store d tap c t) l
      → let t₁ = record (confirm_rebalance store d tap c t).1 { ledger = l } in
        Loads store t₁ (confirm_rebalance store d₁ tap₁ c₁ t₁) l₁
        → let t' = record (confirm_rebalance store d₁ tap₁ c₁ t₁).1 { ledger = l₁ } in
          (confirm_rebalance store d' tap' c' t').1.asked ≡ t'.asked
  second_pause-AsksNothing d d₁ d' tap tap₁ tap' c c₁ c' t l l₁ s s' own token first between =
      let key = strategy_key "pause" the_strategy in
      let t₁ = record (confirm_rebalance store d tap c t).1 { ledger = l } in
      let t' = record (confirm_rebalance store d₁ tap₁ c₁ t₁).1 { ledger = l₁ } in
      let (action, strategy) = staged_pause c' s' in
      let kept : IsProcessed key l =
        subst (IsProcessed key) (sym (confirm_rebalance-Loads store d tap c t l first))
          (pause-IsProcessed d tap c t s own token) in
      let kept₁ : IsProcessed key l₁ =
        subst (IsProcessed key) (sym (confirm_rebalance-Loads store d₁ tap₁ c₁ t₁ l₁ between)) (
          confirm_rebalance-Leaves (IsProcessed key) (IsProcessed-IsStable key) store d₁ tap₁ c₁ t₁
            kept) in
      confirm_rebalance-asked store d' tap' c' t'
        (run_pause-asked store d' c' (consumed_site c' t') action (rw strategy kept₁))
