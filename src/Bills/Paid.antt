-- ===== src/Bills/Paid.antt =====
-- When a bill is paid: what `_handle_confirm_bill` of miriam_agent/hands/settle_funding.py asks the
-- host, and what becomes of the approval.
use miriam.Prelude.{
  ◌≡◌, refl, arith, ◌⊎◌, inl, inr, Bool, true, false, String, none, some, List, [], ◌∷◌, ◌++◌,
  Bool-cases, Option-cases, str_eq, lookup, lookup-insert_self, if◌then◌else◌,
}
use miriam.Audit.{is_executed}
use miriam.Ledger.{Ledger, Challenge, pending, consumed, touch, remember_receipt}
use miriam.Store.{LedgerStore}
use miriam.Host.{Reply, Request, detect_network, pay_bill, Desk, Site, ask_host, host_receipt}
use miriam.Host.Frames.{save_site-asked, save_site-touched}
use miriam.Bills.{
  category_of, recipient_of, bill_key, accepted, bill_receipt, find_network, pay, close_bill,
  confirm_bill,
}

module _ (d : Desk) (c : Challenge) where
  abbrev pub pay_request : String → Request
  pay_request network = pay_bill (category_of c) (recipient_of c) c.amount network (bill_key c)

  -- the payment was asked for after this, at most one question for the network
  abbrev pub IsBefore : List Request → List Request → Type 0
  IsBefore qs before = (before ≡ qs) ⊎ (before ≡ qs ++ (detect_network (recipient_of c) ∷ []))

  -- the challenge stands with this status
  abbrev pub Closed : Bool → Ledger → Type 0
  Closed paid l =
      lookup c.id l.challenges ≡ some (record c { status = if paid then consumed else pending })

  module _ {S : Type 0} where
    find_network-IsBefore : (t : Site S) → IsBefore t.asked (find_network d c t).1.asked
    unfolding find_network ask_host
    find_network-IsBefore t = ground arith

    -- What a bill comes to: nothing is asked of the host for it, without a token; or it is asked to
    -- pay, once, and has or has not accepted.
    abbrev pub BillAsks : Site S → Bool → List Request → Type 0
    BillAsks t paid asked =
        ((str_eq d.token "" ≡ true) × (paid ≡ false) × (asked ≡ t.asked))
        ⊎ ((network : String) × (before : List Request) × IsBefore t.asked before
            × (asked ≡ before ++ (pay_request network ∷ []))
            × (((paid ≡ false) × (accepted d (d.host before (pay_request network)) ≡ none))
                ⊎ ((paid ≡ true)
                    × (r : Reply) × (accepted d (d.host before (pay_request network)) ≡ some r))))

    pay-BillAsks :
        (t : Site S) → BillAsks t (is_executed (pay d c t).0.receipt.status) (pay d c t).1.asked
    unfolding pay ask_host is_executed bill_receipt host_receipt
    pay-BillAsks t = elim (Bool-cases (str_eq d.token "")) [
      | inl e ↦ rw e (inl (refl, refl, refl))
      | inr e ↦
          let n = find_network d c t in
          let q = pay_request n.0 in
          rw e (
            inr (
              n.0,
              n.1.asked,
              find_network-IsBefore t,
              refl,
              elim (Option-cases (accepted d (d.host n.1.asked q))) [
                | inl f ↦ rw f (inl (refl, refl))
                | inr (r, f) ↦ rw f (inr (refl, r, refl))
              ],
            ))
    ]

  -- A bill is paid at most once by a tap, and for what was approved. The host is asked to pay at most
  -- once, after at most a question for the network: the amount, category and recipient are those of
  -- the challenge and the idempotency key is the challenge's own, so that a retap repeats the same
  -- request. The challenge is consumed where the host has accepted, and is open for a retap where it
  -- has not, or where there is no token and nothing was asked.
  pub confirm_bill-Asks :
      {S : Type 0} (store : LedgerStore S) (t : Site S)
      → let r = confirm_bill store d c t in
        (paid : Bool) × BillAsks t paid r.1.asked × Closed paid r.1.ledger
  unfolding confirm_bill close_bill touch remember_receipt
  confirm_bill-Asks store t =
      let p = pay d c t in
      let paid = is_executed p.0.receipt.status in
      (
        paid,
        rw (save_site-asked store p.0 (record p.1 { ledger = close_bill c p.0.receipt p.1.ledger }))
            (pay-BillAsks t),
        save_site-touched (Closed paid) (λ l k. k) store _ _
            (lookup-insert_self c.id _ p.1.ledger.challenges),
      )
