-- ===== src/Moves/Debits.antt =====
-- `handle_debit` of miriam_agent/hands/transfer.py: a debit or a reversal that Go sends.
use miriam.Prelude.{
  ◌≡◌, refl, ◌∙◌, ap, arith, int_laws, String, ℤ, pos, ◌+ℤ◌, ◌-ℤ◌, ◌≤ℤ◌, ◌<ℤ◌, ◌⊎◌, inl, inr, some,
  Option-cases, List-cases, [], ◌∷◌, total,
}
use miriam.Decimal.{Decimal, money, cents}
use miriam.Decimal.Rounding.{money-cents}
use miriam.Audit.{Receipt, event, executed}
use miriam.Ledger.{
  Ledger, balance, debit, is_known, put_balance, record_movement, remember_receipt, receipt_for,
}
use miriam.Ledger.Frames.{debit-user}
use miriam.Ledger.Balances.{net_worth, net_worth-put_balance, debit-ok_iff}
use miriam.Store.{LedgerStore}
use miriam.TransferReceipts.{Env, Outcome, Done, rejected_receipt}
use miriam.TransferReceipts.Saving.{SameBooks, save_then-Saved}
use miriam.Moves.{debit_movement, debit_reasons, moved_receipt, finish, debit_now, handle_debit}

debit_reasons-none :
    (amount : ℤ) (l : Ledger)
    → debit_reasons amount l ≡ []
    → (pos 0 <ℤ amount) × (amount ≤ℤ balance l "spendable")
unfolding debit_reasons
debit_reasons-none amount l h = ground arith

-- A ledger that a debit has left: as it was, or short of the amount that `spendable` held.
abbrev Debited : ℤ → Ledger → Ledger → Type 0
Debited amount l l' =
    (l'.sleeves ≡ l.sleeves)
    ⊎ ((pos 0 <ℤ amount)
        × (amount ≤ℤ balance l "spendable")
        × (l'.sleeves ≡ (put_balance l "spendable" (balance l "spendable" -ℤ amount)).sleeves))

module _ {S : Type 0} (store : LedgerStore S) where
  -- Every debit that is not a replay ends in a receipt under the payment's id.
  pub record Finished (env : Env) (payment_id : String) (amount : ℤ) (l : Ledger) (s : S)
      (d : Done Outcome S) : Type 0 where
    pub booked : Ledger
    pub receipt : Receipt
    pub ends : d ≡ finish store env receipt "" event booked s
    pub key : receipt.idempotency_key ≡ payment_id
    debited : Debited amount l booked
    pub user : booked.user_id ≡ l.user_id

  pub debit_now-Finished :
      (env : Env) (id : String) (amount : ℤ) (reason : String) (l : Ledger) (s : S)
      → Finished env id amount l s (debit_now store env id amount reason l s)
  unfolding debit_now is_known record_movement moved_receipt rejected_receipt
  debit_now-Finished env id amount reason l s = elim (List-cases (debit_reasons amount l)) [
    | inr (x, xs, e) ↦ record {
      booked = l;
      receipt = rejected_receipt env l "debit" (x ∷ xs) (some (cents amount)) reason "" id;
      ends = rw (e, debit_now) refl;
      key = refl;
      debited = inl refl;
      user = refl;
    }
    | inl e ↦
        let (p, c) = debit_reasons-none amount l e in
        let c' : money (cents amount) ≤ℤ balance l "spendable" = rw (money-cents amount) c in
        let run = debit-ok_iff "spendable" (cents amount) l refl c' in
        let l₂ =
          record_movement (debit_movement env id amount reason)
            (debit "spendable" (cents amount) l).1 in
        record {
          booked = l₂;
          receipt =
              moved_receipt env executed "debit" amount reason "spendable" "" id [] "" l.sleeves l₂;
          ends = rw (e, debit_now) (rw (ap (λ x. x.0) run, debit_now) refl);
          key = refl;
          debited = inr (
            p,
            c,
            ap (λ x. x.1.sleeves) run
                ∙ ap (λ m. (put_balance l "spendable" (balance l "spendable" -ℤ m)).sleeves)
                    (money-cents amount),
          );
          user = debit-user "spendable" (cents amount) l;
        }
  ]

  pub finish-SameBooks :
      (env : Env) (r : Receipt) (l : Ledger) (s : S)
      → SameBooks (remember_receipt r l) (finish store env r "" event l s).ledger
  unfolding finish
  finish-SameBooks env r l s = (save_then-Saved store _ (remember_receipt r l) s).1

  remember_receipt-sleeves : (r : Receipt) (l : Ledger) → (remember_receipt r l).sleeves ≡ l.sleeves
  unfolding remember_receipt
  remember_receipt-sleeves r l = refl

  Finished-Debited :
      (env : Env) (id : String) (amount : ℤ) (l : Ledger) (s : S) (d : Done Outcome S)
      → Finished env id amount l s d
      → Debited amount l d.ledger
  Finished-Debited env id amount l s d f =
      let same : d.ledger.sleeves ≡ f.booked.sleeves = rw (f.ends) (
        (finish-SameBooks env f.receipt f.booked s).sleeves
        ∙ remember_receipt-sleeves f.receipt f.booked) in
      elim f.debited [ inl e ↦ inl (same ∙ e) | inr (p, c, e) ↦ inr (p, c, same ∙ e) ]

  Debited-worth :
      (amount : ℤ) (l l' : Ledger)
      → Debited amount l l'
      → (l'.sleeves ≡ l.sleeves)
        ⊎ ((pos 0 <ℤ amount)
            × (amount ≤ℤ balance l "spendable")
            × (net_worth l' +ℤ amount ≡ net_worth l))
  Debited-worth amount l l' (inl e) = inl e
  Debited-worth amount l l' (inr (p, c, e)) =
      let sum : net_worth l'
          ≡ net_worth (put_balance l "spendable" (balance l "spendable" -ℤ amount)) =
        ap total e in
      inr (
        p,
        c,
        grind
            (int_laws, sum, net_worth-put_balance l "spendable" (balance l "spendable" -ℤ amount)),
      )

  -- A debit that Go sends either changes no balance, or takes a positive amount that `spendable` held,
  -- and exactly that amount, out of the sleeves.
  pub handle_debit-PaysOrKeeps :
      (env : Env) (id : String) (amount : Decimal) (reason : String) (l : Ledger) (s : S)
      → let l' = (handle_debit store env id amount reason l s).ledger in
        (l'.sleeves ≡ l.sleeves)
        ⊎ ((pos 0 <ℤ money amount)
            × (money amount ≤ℤ balance l "spendable")
            × (net_worth l' +ℤ money amount ≡ net_worth l))
  unfolding handle_debit
  handle_debit-PaysOrKeeps env id amount reason l s =
      elim (Option-cases (receipt_for id env.at l)) [
        | inr (r, e) ↦ rw (e, handle_debit) (inl refl)
        | inl e ↦
            rw (e, handle_debit)
              (Debited-worth (money amount) l
                (debit_now store env id (money amount) reason l s).ledger
                (Finished-Debited env id (money amount) l s _
                  (debit_now-Finished env id (money amount) reason l s)))
      ]
