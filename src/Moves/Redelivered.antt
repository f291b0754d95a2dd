-- ===== src/Moves/Redelivered.antt =====
-- `handle_debit` of miriam_agent/hands/transfer.py: a payment id that Go delivers again, after a call
-- that has returned or raised.
use miriam.Prelude.{◌≡◌, ◌≢◌, refl, String, ℤ, true, ◌⊎◌, inl, inr, some, Option-cases, [], ◌∷◌}
use mathlib.Core.Path.{subst}
use miriam.Decimal.{Decimal, money}
use miriam.Audit.{Receipt, event}
use miriam.Ledger.{Ledger, ok, err, Error, remember_receipt, receipt_for}
use miriam.Ledger.Receipts.{IsProcessed, receipt_for-IsProcessed, IsProcessed-key, receipt_for-some}
use miriam.Store.{LedgerStore}
use miriam.TransferReceipts.{Env, Outcome, Done, audit_row, replay}
use miriam.TransferReceipts.Saving.{Saved, save_then-Saved}
use miriam.Moves.{finish, handle_debit}
use miriam.Moves.Debits.{Finished, debit_now-Finished, finish-SameBooks}

module _ {S : Type 0} (store : LedgerStore S) where
  -- Where the call returns, the store loads what it has left and the payment's id is processed;
  -- where it raises, the store holds what it held.
  abbrev Kept : String → Ledger → S → Done Outcome S → Type 0
  Kept id l s d =
      ((store.load l.user_id d.store ≡ ok (some d.ledger)) × IsProcessed id d.ledger)
      ⊎ ((e : Error) × (d.result ≡ err e) × (d.store ≡ s))

  abbrev ended : Env → Receipt → Ledger → Outcome
  ended env r l = record { receipt = r; audit = audit_row env l r "" event ∷ [] }

  finish-Saved :
      (env : Env) (r : Receipt) (l : Ledger) (s : S)
      → Saved store (ended env r l) (remember_receipt r l) s (finish store env r "" event l s)
  unfolding finish
  finish-Saved env r l s = (save_then-Saved store (ended env r l) (remember_receipt r l) s).0

  Finished-Kept :
      (env : Env) (id : String) (amount : ℤ) (l : Ledger) (s : S) (d : Done Outcome S)
      → Finished store env id amount l s d
      → id ≢ ""
      → Kept id l s d
  unfolding remember_receipt
  Finished-Kept env id amount l s d f named =
      let processed : IsProcessed id (finish store env f.receipt "" event f.booked s).ledger =
        rw ((finish-SameBooks store env f.receipt f.booked s).processed)
          (IsProcessed-key f.receipt f.booked id f.key named) in
      rw (f.ends) (elim (finish-Saved env f.receipt f.booked s) [
        | inl (r, held) ↦ inl (
          subst
              (λ x.
                store.load x (finish store env f.receipt "" event f.booked s).store
                ≡ ok (some (finish store env f.receipt "" event f.booked s).ledger))
              f.user held,
          processed,
        )
        | inr raised ↦ inr raised
      ])

  handle_debit-Kept :
      (env : Env) (id : String) (amount : Decimal) (reason : String) (l : Ledger) (s : S)
      → id ≢ ""
      → store.load l.user_id s ≡ ok (some l)
      → Kept id l s (handle_debit store env id amount reason l s)
  unfolding handle_debit
  handle_debit-Kept env id amount reason l s named loads =
      elim (Option-cases (receipt_for id env.at l)) [
        | inl e ↦
            rw (e, handle_debit)
              (Finished-Kept env id (money amount) l s _
                (debit_now-Finished store env id (money amount) reason l s) named)
        | inr (r, e) ↦ rw (e, handle_debit) (inl (loads, receipt_for-some id env.at l e))
      ]

  -- a payment id that has been seen replays
  handle_debit-seen :
      (env : Env) (id : String) (amount : Decimal) (reason : String) (l : Ledger) (s : S)
      (r : Receipt)
      → receipt_for id env.at l ≡ some r
      → let d = handle_debit store env id amount reason l s in
        (d.ledger ≡ l)
        × (d.store ≡ s)
        × ((o : Outcome) × (d.result ≡ ok o) × (o.receipt.idempotent_replay ≡ true))
  unfolding handle_debit
  handle_debit-seen env id amount reason l s r seen =
      rw (seen, handle_debit) (refl, refl, (record { receipt = replay r; audit = [] }, refl, refl))

  -- A debit is applied once. A payment id that is not empty, on the ledger that the store loads for
  -- the user, ends in one of two ways. Either the store then loads the ledger that the call has left,
  -- and on it the id, delivered again with any amount, replays: neither the ledger nor the store
  -- changes, and the receipt that is returned is marked as a replay. Or the call raises and the store
  -- holds what it held, so the payment can be delivered again.
  pub handle_debit_twice :
      (env later : Env) (id : String) (amount other : Decimal) (reason : String) (l : Ledger)
      (s : S)
      → id ≢ ""
      → store.load l.user_id s ≡ ok (some l)
      → let first = handle_debit store env id amount reason l s in
        let again = handle_debit store later id other reason first.ledger first.store in
        ((store.load l.user_id first.store ≡ ok (some first.ledger))
          × (again.ledger ≡ first.ledger)
          × (again.store ≡ first.store)
          × ((o : Outcome) × (again.result ≡ ok o) × (o.receipt.idempotent_replay ≡ true)))
        ⊎ ((e : Error) × (first.result ≡ err e) × (first.store ≡ s))
  handle_debit_twice env later id amount other reason l s named loads =
      let first = handle_debit store env id amount reason l s in
      elim (handle_debit-Kept env id amount reason l s named loads) [
        | inr raised ↦ inr raised
        | inl (held, processed) ↦
            let (r, seen) = receipt_for-IsProcessed id later.at first.ledger processed in
            let (kept, same, result) =
              handle_debit-seen later id other reason first.ledger first.store r seen in
            inl (held, kept, same, result)
      ]
