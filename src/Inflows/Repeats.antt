-- ===== src/Inflows/Repeats.antt =====
-- The same payment, delivered again to `_handle_inflow` of miriam_agent/orchestrator.py.
use miriam.Prelude.{
  ◌≡◌, refl, ◌∙◌, ap, arith, String, inl, inr, true, Bool-cases, Option, some, Option-cases,
  eq_refl,
}
use miriam.Decimal.{Decimal}
use miriam.Audit.{Receipt}
use miriam.Ledger.{Ledger, Result, ok, receipt_for}
use miriam.Store.{LedgerStore}
use miriam.TransferReceipts.{Env}
use miriam.Payments.{PaymentRefKey, PaymentRefStore, same_key, is_complete}
use miriam.Inflows.{
  Desk, Delivery, Stores, key_for, loaded, duplicate_inflow, split_turn, complete_turn,
  handle_inflow, deliver,
}

same_key_refl : (k : PaymentRefKey) → same_key k k ≡ true
unfolding same_key
same_key_refl k = ground (arith, eq_refl k.channel, eq_refl k.sender_handle, eq_refl k.reference)

-- A repeat is answered with a receipt that is marked as a replay.
abbrev pub IsReplay : Result Receipt → Type 0
IsReplay x = (r : Receipt) × (x ≡ ok r) × (r.idempotent_replay ≡ true)

duplicate_inflow-IsReplay :
    (env : Env) (id : String) (l : Ledger) → (duplicate_inflow env id l).idempotent_replay ≡ true
unfolding duplicate_inflow
duplicate_inflow-IsReplay env id l = elim (Option-cases (receipt_for id env.at l)) [
  | inl e ↦ rw (e, duplicate_inflow) refl
  | inr (r, e) ↦ rw (e, duplicate_inflow) refl
]

module _ {S R : Type 0} (store : LedgerStore S) (claims : PaymentRefStore R) where
  -- A delivery with an amount and a complete identity, on the ledger that is loaded.
  pub record Arrives (k : Desk) (d : Delivery) (a : Decimal) (found : Option Ledger) (s : S)
      : Type 0 where
    pub given : d.amount ≡ some a
    pub complete : is_complete (key_for k.identity d a) ≡ true
    pub loads : store.load d.user_id s ≡ ok found

  -- the turn of a complete delivery
  abbrev turn : Desk → Delivery → Decimal → Option Ledger → Stores S R → Result Receipt × Stores S R
  turn k d a found w =
      complete_turn store claims k (key_for k.identity d a) a d.source_raw
        (loaded store claims d.user_id found) w

  deliver-turn :
      (k : Desk) (d : Delivery) (a : Decimal) (found : Option Ledger) (w : Stores S R)
      → Arrives k d a found w.ledgers
      → deliver store claims k d w ≡ turn k d a found w
  unfolding deliver handle_inflow
  deliver-turn k d a found w h =
      rw (h.loads, deliver) (rw (h.given, handle_inflow) (rw (h.complete, handle_inflow) refl))

  module _ (k : Desk) (key : PaymentRefKey) (a : Decimal) (source : String) (l : Ledger) where
    -- whatever the turn comes to, the key stays claimed
    complete_turn-refs :
        (s : S) (r : R)
        → (complete_turn store claims k key a source l
            (record { ledgers = s; refs = some r })).1.refs
          ≡ some (claims.claim key r).1
    unfolding complete_turn split_turn
    complete_turn-refs s r = elim (Bool-cases (claims.claim key r).0) [
      | inl e ↦ rw (e, complete_turn) refl
      | inr e ↦ rw (e, complete_turn) refl
    ]

    complete_turn-claimed :
        (s : S) (r : R)
        → claims.is_claimed key r ≡ true
        → let (x, w') =
            complete_turn store claims k key a source l (record { ledgers = s; refs = some r }) in
          IsReplay x × (w'.ledgers ≡ s)
    unfolding complete_turn
    complete_turn-claimed s r c =
        let e : (claims.claim key r).0 ≡ true = claims.claim-duplicate key r ∙ c in
        rw (e, complete_turn) ((_, refl, duplicate_inflow-IsReplay k.env _ l), refl)

  -- A payment that has been claimed is never credited, whatever became of its claim. With a store of
  -- payments: a delivery with a complete identity arrives, its ledger is read, and its turn returns
  -- or raises (as it does where the ledger cannot be saved). A later delivery with the same four
  -- columns, to the same user or to another, on any ledgers, is answered with a receipt that is
  -- marked as a replay, and nothing is saved.
  pub claimed_payment-IsNotCredited :
      (k k' : Desk) (d d' : Delivery) (a a' : Decimal) (found found' : Option Ledger) (s s' : S)
      (r : R)
      → Arrives k d a found s
      → Arrives k' d' a' found' s'
      → key_for k.identity d a ≡ key_for k'.identity d' a'
      → let (x, w) = deliver store claims k d (record { ledgers = s; refs = some r }) in
        let (x', w') = deliver store claims k' d' (record { ledgers = s'; refs = w.refs }) in
        IsReplay x' × (w'.ledgers ≡ s')
  claimed_payment-IsNotCredited k k' d d' a a' found found' s s' r h h' same =
      let first = deliver-turn k d a found (record { ledgers = s; refs = some r }) h in
      let refs =
        ap (λ (x : Result Receipt × Stores S R). x.1.refs) first
        ∙ complete_turn-refs k (key_for k.identity d a) a d.source_raw _ s r in
      let held : claims.is_claimed (key_for k'.identity d' a')
            (claims.claim (key_for k.identity d a) r).1
          ≡ true =
        rw (claims.claim-is_claimed (key_for k.identity d a) (key_for k'.identity d' a') r)
          (rw (same, same_key_refl (key_for k'.identity d' a'))) in
      rw refs (
        rw
          (deliver-turn k' d' a' found'
            (record { ledgers = s'; refs = some (claims.claim (key_for k.identity d a) r).1 }) h')
          (complete_turn-claimed k' (key_for k'.identity d' a') a' d'.source_raw _ s' _ held))
