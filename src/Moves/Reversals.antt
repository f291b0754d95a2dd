-- ===== src/Moves/Reversals.antt =====
-- `handle_reversal` of miriam_agent/hands/transfer.py, under the id of an inflow that `split_inflow` of
-- miriam_agent/hands/split.py has credited.
use miriam.Prelude.{◌≡◌, ◌≢◌, refl, String, none, true, []}
use miriam.Decimal.{Decimal}
use miriam.Ledger.{Ledger, ok, receipt_for}
use miriam.Ledger.Receipts.{receipt_for-IsProcessed}
use miriam.Store.{LedgerStore}
use miriam.Split.{InflowRequest, split_inflow}
use miriam.Split.Inflow.{first_run-IsProcessed}
use miriam.TransferReceipts.{Env, Outcome, replay}
use miriam.Moves.{handle_debit}

-- A debit or a reversal under the id of an inflow that has been split, an id that is not empty and
-- was new, takes back nothing, whatever its amount: neither the ledger nor the store changes, and it returns a
-- replayed receipt and no audit row.
reversal-IsReplayed :
    {S : Type 0} (store : LedgerStore S) (env later : Env) (q : InflowRequest) (l : Ledger) (s : S)
    (amount : Decimal) (reason : String)
    → q.id ≢ ""
    → receipt_for q.id env.at l ≡ none
    → let first = split_inflow store env q l s in
      let d = handle_debit store later q.id amount reason first.ledger first.store in
      (d.ledger ≡ first.ledger)
      × (d.store ≡ first.store)
      × ((o : Outcome) × (d.result ≡ ok o) × (o.audit ≡ []) × (o.receipt.idempotent_replay ≡ true))
unfolding handle_debit
reversal-IsReplayed store env later q l s amount reason named fresh =
    let first = split_inflow store env q l s in
    let (r, seen) =
      receipt_for-IsProcessed q.id later.at first.ledger
        (first_run-IsProcessed store env q l s named fresh) in
    rw (seen, handle_debit)
      (refl, refl, (record { receipt = replay r; audit = [] }, refl, refl, refl))
