-- ===== src/Transfer/Retry.antt =====
-- The order of the steps in `execute_transfer` of miriam_agent/hands/transfer.py: the claim, the
-- decision, the limits, the rail and the debit, and retries under the same key.
use miriam.Prelude.{
  ◌≡◌, refl, ap, arith, int_laws, String, ℤ, ◌≤ℤ◌, ◌<ℤ◌, true, false, none, some, List, [], ◌∷◌,
  ◌++◌, lookup, lookup-insert_self, inl, inr,
}
use miriam.Decimal.{money, cents}
use miriam.Decimal.Rounding.{money-cents}
use miriam.Audit.{Reason, already_in_flight}
use miriam.Ledger.{Ledger, Result, ok, err, ledger_error, balance, is_known}
use miriam.Ledger.Balances.{debit-short, debit-ok_iff}
use miriam.Limits.{free_after_obligations}
use miriam.Limits.Verdict.{evaluate_limits-allowed}
use miriam.Journal.{reserve, fresh_row}
use miriam.State.{require_complete}
use miriam.Store.{LedgerStore}
use miriam.Store.Race.{Result-cases}
use miriam.TransferReceipts.{Outcome, decision_verdict}
use miriam.Transfer.Stages.{dispatched_world}
use miriam.Transfer.{
  World, Request, request_key, refusal, claim_key, save_and_return, refuse, roll_back, booked,
  settle, send, limits_of, check_limits, check_decision, check_state, execute_request, instruction,
}

module _ {S : Type 0} (store : LedgerStore S) where
  free-le-spendable : (s a b : ℤ) → free_after_obligations s a b ≤ℤ s
  unfolding free_after_obligations
  free-le-spendable s a b = grind int_laws

  -- A send out of `spendable` that the limits allow is covered, so the debit after the rail call
  -- cannot raise.
  pub spendable_send-IsBooked :
      (q : Request) (amount : ℤ) (ref : String) (l : Ledger)
      → q.action.sleeve ≡ "spendable"
      → (limits_of store q amount l).allowed ≡ true
      → (booked store q amount ref l).0 ≡ ok tt
  unfolding booked limits_of is_known
  spendable_send-IsBooked q amount ref l e h =
      let w =
        (evaluate_limits-allowed q.zone q.policy amount l q.env.at q.action.sleeve
            (balance l "spendable") l.rent_first.required l.rent_first.reserved).0
          h in
      let covered : money (cents amount) ≤ℤ balance l "spendable" = rw (money-cents amount) (
        omega (
          arith,
          w.0.covered,
          free-le-spendable (balance l "spendable") l.rent_first.required l.rent_first.reserved,
        )) in
      rw e (ap (λ x. x.0) (debit-ok_iff "spendable" (cents amount) l refl covered))

  booked-short :
      (q : Request) (amount : ℤ) (ref : String) (l : Ledger)
      → balance l q.action.sleeve <ℤ amount
      → (booked store q amount ref l).0 ≡ err ledger_error
  unfolding booked
  booked-short q amount ref l short =
      let short' : balance l q.action.sleeve <ℤ money (cents amount) =
        rw (money-cents amount) short in
      ap (λ x. x.0) (debit-short q.action.sleeve (cents amount) l short')

  settle-short :
      (q : Request) (amount : ℤ) (ref : String) (w : World S)
      → balance w.ledger q.action.sleeve <ℤ amount
      → settle store q amount ref w ≡ roll_back store q amount ref w.ledger w
  unfolding settle
  settle-short q amount ref w short = rw (booked-short q amount ref w.ledger short, settle)

  -- A send that the limits allow, out of a sleeve that holds less than the amount, over a rail
  -- that reports ok: the rail is called, and then asked to reverse what it has moved.
  pub short_sleeve-IsSent :
      (q : Request) (amount : ℤ) (w : World S)
      → (limits_of store q amount w.ledger).allowed ≡ true
      → balance w.ledger q.action.sleeve <ℤ amount
      → (q.rail.execute (instruction store q amount w.ledger)).ok ≡ true
      → let i = instruction store q amount w.ledger in
        let w' = (check_limits store q amount w).1 in
        (w'.calls ≡ w.calls ++ (i ∷ []))
        × (w'.reversals ≡ w.reversals ++ ((q.rail.execute i).reference ∷ []))
  unfolding check_limits send roll_back
  short_sleeve-IsSent q amount w h short rail_ok =
      rw (h, check_limits)
        (rw (rail_ok, send)
          (rw
            (settle-short q amount (q.rail.execute (instruction store q amount w.ledger)).reference
              (dispatched_world store q amount w) short)
            (refl, refl)))

  abbrev pub reasons_of : Result Outcome → List Reason
  reasons_of (ok o) = o.receipt.reasons
  reasons_of (err e) = []

  -- the row that a claim leaves
  claim_key-row :
      (q : Request) (w : World S)
      → (claim_key q w).0 ≡ none
      → lookup (request_key q) (claim_key q w).1.journal ≡ some (fresh_row w.ledger.user_id)
  unfolding claim_key reserve
  claim_key-row q w won =
      ground (arith, lookup-insert_self (request_key q) (fresh_row w.ledger.user_id) w.journal)

  -- a refusal touches no row
  save_and_return-journal :
      (o : Outcome) (w : World S) → (save_and_return store o w).1.journal ≡ w.journal
  unfolding save_and_return
  save_and_return-journal o w = elim (Result-cases (store.save w.ledger w.store).0) [
    | inl (l, e) ↦ rw (e, save_and_return)
    | inr (x, e) ↦ rw (e, save_and_return)
  ]

  check_decision-refused :
      (q : Request) (w : World S)
      → (decision_verdict q.state.decision).0 ≡ false
      → (check_decision store q w).1.journal ≡ w.journal
  unfolding check_decision refuse
  check_decision-refused q w no_decision =
      rw (no_decision, check_decision) (save_and_return-journal _ _)

  -- the retry of a key whose row is still `reserved`
  reserved_retry :
      (q : Request) (w : World S) (user : String)
      → q.faults.journal_down ≡ false
      → lookup (request_key q) w.journal ≡ some (fresh_row user)
      → reasons_of (execute_request store q w).0 ≡ already_in_flight ∷ []
  unfolding execute_request claim_key reserve refusal
  reserved_retry q w user up held = rw (up, held, execute_request, claim_key, reserve) refl

  check_state-refused :
      (q : Request) (w : World S)
      → (decision_verdict q.state.decision).0 ≡ false
      → (check_state store q w).1.journal ≡ w.journal
  unfolding check_state
  check_state-refused q w no_decision = elim (Result-cases (require_complete q.state)) [
    | inl (u, e) ↦ rw (e, check_state) (check_decision-refused q w no_decision)
    | inr (x, e) ↦ rw (e, check_state)
  ]

  -- After a first call that won its key and that the decision refused, any call under the same
  -- key, on the journal that the first one left and with that journal up, is told that the
  -- movement is already in flight.
  refused_retry-IsInFlight :
      (q again : Request) (w w' : World S)
      → (claim_key q w).0 ≡ none
      → (decision_verdict q.state.decision).0 ≡ false
      → request_key again ≡ request_key q
      → again.faults.journal_down ≡ false
      → w'.journal ≡ (execute_request store q w).1.journal
      → reasons_of (execute_request store again w').0 ≡ already_in_flight ∷ []
  refused_retry-IsInFlight q again w w' won no_decision same up shared =
      let first : (execute_request store q w).1.journal ≡ (claim_key q w).1.journal =
        unfold execute_request in
        rw (won, execute_request) (check_state-refused q (claim_key q w).1 no_decision) in
      reserved_retry again w' w.ledger.user_id up (rw (shared, first, same) (claim_key-row q w won))
