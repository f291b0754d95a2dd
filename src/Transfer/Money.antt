-- ===== src/Transfer/Money.antt =====
-- The balances after `execute_transfer` of miriam_agent/hands/transfer.py.
use mathlib.Core.Path.{subst}
use miriam.Transfer.Stages.{dispatched_world}
use miriam.Prelude.{
  ◌≡◌, refl, sym, ◌∙◌, ap, arith, String, ℤ, ◌+ℤ◌, true, ◌⊎◌, inl, inr, Bool-cases, Option-cases,
  List, [], ◌∷◌, total,
}
use miriam.Decimal.{money, cents}
use miriam.Decimal.Rounding.{money-cents}
use miriam.Audit.{Reason, rail_failed, Trigger, confirm, system}
use miriam.Ledger.{Ledger, ok, debit, touch, remember_receipt, record_movement}
use miriam.Ledger.Balances.{net_worth, net_worth-debit}
use miriam.State.{require_complete}
use miriam.Store.{LedgerStore}
use miriam.Store.Race.{Result-cases}
use miriam.TransferReceipts.{Outcome, decision_verdict}
use miriam.Transfer.{
  World, Request, TransferInstruction, claim_key, save_and_return, refuse, roll_back, keep_or,
  booked, settle, send, limits_of, check_limits, check_decision, check_state, execute_request,
  instruction, amount_to_send,
}

-- No balance has changed.
abbrev pub Kept : {S : Type 0} → World S → World S → Type 0
Kept w w' = w'.ledger.sleeves ≡ w.ledger.sleeves

module _ {S : Type 0} (store : LedgerStore S) where
  touch-sleeves : (l l' : Ledger) → l' ≡ touch l → l'.sleeves ≡ l.sleeves
  unfolding touch
  touch-sleeves l l' e = ap (λ (x : Ledger). x.sleeves) e

  save_and_return-Kept : (o : Outcome) (w : World S) → Kept w (save_and_return store o w).1
  unfolding save_and_return
  save_and_return-Kept o w = elim (Result-cases (store.save w.ledger w.store).0) [
    | inl (l, e) ↦
        rw (e, save_and_return) (touch-sleeves w.ledger l (store.save-ok w.ledger w.store e))
    | inr (x, e) ↦ rw (e, save_and_return)
  ]

  refuse-Kept :
      (q : Request) (reasons : List Reason) (amount : ℤ) (t : Trigger) (w : World S)
      → Kept w (refuse store q reasons amount t w).1
  unfolding refuse remember_receipt
  refuse-Kept q reasons amount t w = save_and_return-Kept _ _

  keep_or-sleeves : (x : Ledger) (s : S) → (keep_or store (store.save x s) x).0.sleeves ≡ x.sleeves
  keep_or-sleeves x s = elim (Result-cases (store.save x s).0) [
    | inl (l, e) ↦ rw (e, keep_or) (touch-sleeves x l (store.save-ok x s e))
    | inr (y, e) ↦ rw (e, keep_or)
  ]

  roll_back-Kept :
      (q : Request) (amount : ℤ) (ref : String) (l : Ledger) (w : World S)
      → (roll_back store q amount ref l w).1.ledger.sleeves ≡ l.sleeves
  unfolding roll_back remember_receipt
  roll_back-Kept q amount ref l w = keep_or-sleeves _ w.store

  -- A debit that went through, for the whole amount.
  abbrev Paid : ℤ → World S → World S → Type 0
  Paid amount w w' = net_worth w'.ledger +ℤ amount ≡ net_worth w.ledger

  booked-Paid :
      (q : Request) (amount : ℤ) (ref : String) (l : Ledger)
      → (booked store q amount ref l).0 ≡ ok tt
      → net_worth (booked store q amount ref l).1 +ℤ amount ≡ net_worth l
  unfolding booked record_movement remember_receipt
  booked-Paid q amount ref l e =
      ap (λ x. net_worth (debit q.action.sleeve (cents amount) l).1 +ℤ x) (sym (money-cents amount))
      ∙ net_worth-debit q.action.sleeve (cents amount) l e

  settle-Paid :
      (q : Request) (amount : ℤ) (ref : String) (w : World S)
      → Kept w (settle store q amount ref w).1 ⊎ Paid amount w (settle store q amount ref w).1
  unfolding settle
  settle-Paid q amount ref w = elim (Result-cases (booked store q amount ref w.ledger).0) [
    | inr (x, e) ↦ rw (e, settle) (inl (roll_back-Kept q amount ref w.ledger w))
    | inl (u, e) ↦
        let l = (booked store q amount ref w.ledger).1 in
        elim (Result-cases (store.save l w.store).0) [
          | inr (x, f) ↦
              rw (e, settle)
                (rw f (
                  inl (
                    roll_back-Kept q amount ref w.ledger
                      (record w { store = (store.save l w.store).1 }))))
          | inl (l', f) ↦
              rw (e, settle)
                (rw f (
                  inr (
                    ap (λ x. total x +ℤ amount) (touch-sleeves l l' (store.save-ok l w.store f))
                    ∙ booked-Paid q amount ref w.ledger e)))
        ]
  ]

  -- What has to hold for money to leave: the decision and the limits allow the amount, the rail is
  -- called with it under the key of the request, and says that it moved.
  pub record Authorised (q : Request) (l : Ledger) (i : TransferInstruction) : Type 0 where
    pub decided : (decision_verdict q.state.decision).0 ≡ true
    pub amount_is : i.amount ≡ amount_to_send q.state.decision q.amount
    pub within_limits : (limits_of store q i.amount l).allowed ≡ true
    pub rail_ok : (q.rail.execute i).ok ≡ true

  -- One call moves no balance at all, or it is authorised and the sleeves lose exactly what the rail
  -- was told to send.
  abbrev pub PaysOrKeeps : Request → World S → World S → Type 0
  PaysOrKeeps q w w' =
      Kept w w' ⊎ ((i : TransferInstruction) × Authorised q w.ledger i × Paid i.amount w w')

  send-PaysOrKeeps :
      (q : Request) (amount : ℤ) (w : World S)
      → (decision_verdict q.state.decision).0 ≡ true
      → amount ≡ amount_to_send q.state.decision q.amount
      → (limits_of store q amount w.ledger).allowed ≡ true
      → PaysOrKeeps q w (send store q amount w).1
  unfolding send
  send-PaysOrKeeps q amount w d a h =
      let i = instruction store q amount w.ledger in
      elim (Bool-cases (q.rail.execute i).ok) [
        | inr e ↦ rw e (inl (refuse-Kept q (rail_failed ∷ []) amount confirm _))
        | inl e ↦
            rw e
              (elim (settle-Paid q amount (q.rail.execute i).reference
                (dispatched_world store q amount w)) [
                  | inl kept ↦ inl kept
                  | inr paid ↦ inr (
                    i,
                    record { decided = d; amount_is = a; within_limits = h; rail_ok = e },
                    paid,
                  )
                ])
      ]

  check_decision-PaysOrKeeps :
      (q : Request) (w : World S) → PaysOrKeeps q w (check_decision store q w).1
  unfolding check_decision check_limits
  check_decision-PaysOrKeeps q w =
      let amount = amount_to_send q.state.decision q.amount in
      elim (Bool-cases (decision_verdict q.state.decision).0) [
        | inr e ↦
            rw e
              (inl (refuse-Kept q (decision_verdict q.state.decision).1 (money q.amount) system w))
        | inl d ↦ elim (Bool-cases (limits_of store q amount w.ledger).allowed) [
          | inr e ↦ rw d (
              rw e
                (inl (refuse-Kept q (limits_of store q amount w.ledger).reasons amount system w)))
          | inl e ↦ rw d (rw e (send-PaysOrKeeps q amount w d refl e))
        ]
      ]

  check_state-PaysOrKeeps : (q : Request) (w : World S) → PaysOrKeeps q w (check_state store q w).1
  unfolding check_state
  check_state-PaysOrKeeps q w = elim (Result-cases (require_complete q.state)) [
    | inl (u, e) ↦ rw (e, check_state) (check_decision-PaysOrKeeps q w)
    | inr (x, e) ↦ rw (e, check_state) (inl refl)
  ]

  claim_key-ledger : (q : Request) (w : World S) → (claim_key q w).1.ledger ≡ w.ledger
  unfolding claim_key
  claim_key-ledger q w = ground arith

  -- On every path of a call, errors, replays and rollbacks included, the sleeves of the ledger
  -- that it returns, or leaves where it raises, either stay as they are, or their sum falls by exactly an amount that the decision and
  -- the limits allowed, that the rail was told to send, and that it reported as moved.
  pub execute_request-PaysOrKeeps :
      (q : Request) (w : World S) → PaysOrKeeps q w (execute_request store q w).1
  unfolding execute_request
  execute_request-PaysOrKeeps q w = elim (Option-cases (claim_key q w).0) [
    | inr (r, e) ↦
        rw (e, execute_request) (inl (ap (λ (l : Ledger). l.sleeves) (claim_key-ledger q w)))
    | inl won ↦
        rw (won, execute_request)
          (subst
            (λ l.
              let w' = (check_state store q (claim_key q w).1).1 in
              (w'.ledger.sleeves ≡ l.sleeves)
              ⊎ ((i : TransferInstruction) × Authorised q l i
                  × (net_worth w'.ledger +ℤ i.amount ≡ net_worth l)))
            (claim_key-ledger q w) (check_state-PaysOrKeeps q (claim_key q w).1))
  ]
