-- ===== src/Split/Inflow.antt =====
-- `split_inflow` of miriam_agent/hands/split.py: a first run and a repeat.
use miriam.Prelude.{
  ◌≡◌, ◌≢◌, ◌⊎◌, inl, inr, refl, ◌∙◌, ap, int_laws, pos, ◌+ℤ◌, ◌≤ℤ◌, ◌<ℤ◌, true, false, none, some,
  [], total,
}
use mathlib.Core.Path.{subst}
use miriam.Decimal.{money}
use miriam.Ledger.{Ledger, ok, err, Error, remember_receipt, receipt_for}
use miriam.Ledger.Receipts.{IsProcessed, remember_receipt-IsProcessed, receipt_for-IsProcessed}
use miriam.Ledger.Balances.{net_worth}
use miriam.Store.{LedgerStore}
use miriam.Audit.{Receipt}
use miriam.TransferReceipts.Saving.{Saved, SameBooks, save_then-Saved}
use miriam.TransferReceipts.{Env, Done, replay, save_then}
use miriam.Split.Amounts.{split_parts_reconcile}
use miriam.Split.{
  Parts, split_parts, parts_dict, apply_split, reserved_now, InflowRequest, SplitOutcome,
  split_inflow, finish_split, note_inflow, split_receipt,
}
use miriam.Split.Frames.{apply_split-user}
use miriam.Split.Gains.{apply_split-ok, AllPartsNonNeg, positive_sum-parts, positive_sum-negative}

module _ {S : Type 0} (store : LedgerStore S) (env : Env) (q : InflowRequest) (l : Ledger)
    (s : S) where
  abbrev run : Done SplitOutcome S
  run = split_inflow store env q l s

  abbrev parts : Parts
  parts = split_parts l.track q.amount

  -- the ledger that a first run saves
  abbrev moved : Ledger
  moved = (apply_split env q l).1

  abbrev pub noted : Ledger
  noted = note_inflow q moved

  abbrev pub receipt : Receipt
  receipt = split_receipt env q l.sleeves noted

  abbrev pub outcome : SplitOutcome
  outcome = record {
    receipt = receipt;
    parts = parts_dict parts;
    reserved_for_rent = reserved_now env q l;
    idempotent_replay = false;
  }

  split_inflow-fresh :
      receipt_for q.id env.at l ≡ none
      → run ≡ save_then store outcome (remember_receipt receipt noted) s
  unfolding split_inflow finish_split
  split_inflow-fresh fresh =
      rw (fresh, split_inflow) (rw ((apply_split-ok env q l).0, finish_split))

  saved :
      Saved store outcome
        (remember_receipt receipt noted)
        s
        (save_then store outcome (remember_receipt receipt noted) s)
      × SameBooks
          (remember_receipt receipt noted)
          (save_then store outcome (remember_receipt receipt noted) s).ledger
  saved = save_then-Saved store outcome (remember_receipt receipt noted) s

  noted-sleeves : (remember_receipt receipt noted).sleeves ≡ moved.sleeves
  unfolding remember_receipt
  noted-sleeves = refl

  -- The first run of an inflow whose parts are not negative adds exactly the rounded inflow to the
  -- sum of the sleeves; and it returns and the store holds the new ledger, or it raises what the
  -- store raised and the store holds what it held.
  pub split_inflow_conserves :
      receipt_for q.id env.at l ≡ none
      → AllPartsNonNeg parts
      → (net_worth run.ledger ≡ net_worth l +ℤ money q.amount)
        × Saved store outcome (remember_receipt receipt noted) s run
  split_inflow_conserves fresh nonneg = rw (split_inflow-fresh fresh) (
    ap total (saved.1.sleeves ∙ noted-sleeves)
        ∙ (apply_split-ok env q l).1
        ∙ ap (λ x. net_worth l +ℤ x)
            (positive_sum-parts parts nonneg ∙ split_parts_reconcile l.track q.amount),
    saved.0,
  )

  -- On the first run of an inflow, when rounding leaves the spendable part negative and the other
  -- two are not, the sleeves gain more than the inflow: the loop skips the negative part.
  split_inflow_creates_money :
      receipt_for q.id env.at l ≡ none
      → parts.spendable <ℤ pos 0
      → pos 0 ≤ℤ parts.savings
      → pos 0 ≤ℤ parts.yield_
      → net_worth l +ℤ money q.amount <ℤ net_worth run.ledger
  split_inflow_creates_money fresh n hs hy =
      let gained : net_worth run.ledger ≡ net_worth l +ℤ (parts.savings +ℤ parts.yield_) =
        rw (split_inflow-fresh fresh) (
          ap total (saved.1.sleeves ∙ noted-sleeves)
          ∙ (apply_split-ok env q l).1
          ∙ ap (λ x. net_worth l +ℤ x) (positive_sum-negative parts n hs hy)) in
      rw gained (grind (int_laws, split_parts_reconcile l.track q.amount))

  split_inflow-seen :
      (r : Receipt)
      → receipt_for q.id env.at l ≡ some r
      → (run.ledger ≡ l)
        × (run.store ≡ s)
        × ((o : SplitOutcome) × (run.result ≡ ok o) × (o.receipt ≡ replay r) × (o.parts ≡ []))
  unfolding split_inflow
  split_inflow-seen r seen =
      rw (seen, split_inflow)
        (
          refl,
          refl,
          (
            record {
              receipt = replay r;
              parts = [];
              reserved_for_rent = pos 0;
              idempotent_replay = true;
            },
            refl,
            refl,
            refl,
          ),
        )

  noted-IsProcessed : q.id ≢ "" → IsProcessed q.id (remember_receipt receipt noted)
  unfolding split_receipt
  noted-IsProcessed named = remember_receipt-IsProcessed receipt noted named

  pub first_run-IsProcessed :
      q.id ≢ "" → receipt_for q.id env.at l ≡ none → IsProcessed q.id run.ledger
  first_run-IsProcessed named fresh =
      rw (split_inflow-fresh fresh) (rw (saved.1.processed) (noted-IsProcessed named))

  noted-user : (remember_receipt receipt noted).user_id ≡ l.user_id
  unfolding remember_receipt
  noted-user = apply_split-user env q l

  -- where the first run returns, the store loads what it has left
  pub first_run-Saved :
      receipt_for q.id env.at l ≡ none
      → (store.load l.user_id run.store ≡ ok (some run.ledger))
        ⊎ ((e : Error) × (run.result ≡ err e) × (run.store ≡ s))
  first_run-Saved fresh = rw (split_inflow-fresh fresh) (elim saved.0 [
    | inl (r, held) ↦ inl (
        subst
          (λ x.
            store.load x (save_then store outcome (remember_receipt receipt noted) s).store
            ≡ ok (some (save_then store outcome (remember_receipt receipt noted) s).ledger))
          noted-user held)
    | inr raised ↦ inr raised
  ])

module _ {S : Type 0} (store : LedgerStore S) (env later : Env) (q : InflowRequest) (l : Ledger)
    (s : S) where
  abbrev first : Done SplitOutcome S
  first = split_inflow store env q l s

  abbrev again : Done SplitOutcome S
  again = split_inflow store later q first.ledger first.store

  -- The inflow is credited once. On a ledger that has not seen its id, which is not empty, the first
  -- run either saves or fails. Where it saves, the store loads for the user the ledger that the run
  -- has left, and a delivery of the inflow on that ledger, at any time, changes neither the ledger
  -- nor the store and returns a replayed receipt with no parts. Where it raises, the store holds what
  -- it held, so the inflow can be delivered again.
  pub split_inflow_twice :
      q.id ≢ ""
      → receipt_for q.id env.at l ≡ none
      → ((store.load l.user_id first.store ≡ ok (some first.ledger))
          × (again.ledger ≡ first.ledger)
          × (again.store ≡ first.store)
          × ((o : SplitOutcome) × (again.result ≡ ok o)
              × (o.parts ≡ [])
              × (o.receipt.idempotent_replay ≡ true)))
        ⊎ ((e : Error) × (first.result ≡ err e) × (first.store ≡ s))
  split_inflow_twice named fresh = elim (first_run-Saved store env q l s fresh) [
    | inl held ↦
        let (r, seen) =
          receipt_for-IsProcessed q.id later.at first.ledger
            (first_run-IsProcessed store env q l s named fresh) in
        let (kept, same, (o, result, receipt', parts')) =
          split_inflow-seen store later q first.ledger first.store r seen in
        inl (
          held,
          kept,
          same,
          (o, result, parts', ap (λ (x : Receipt). x.idempotent_replay) receipt'),
        )
    | inr raised ↦ inr raised
  ]
