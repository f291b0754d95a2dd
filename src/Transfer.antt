-- ===== src/Transfer.antt =====
-- miriam_agent/hands/transfer.py: `execute_transfer` and what it is made of. The rail is a parameter:
-- what it answers to an instruction and to a reversal; every call that reaches it is recorded. So are
-- an outage of the journal and marks that are lost.
mod Claims
pub mod Stages
pub mod Once
pub mod Money
pub mod Retry
unfoldable pub use Claims.*
use miriam.Prelude.{
  ℕ, String, ℤ, ◌-ℤ◌, min_ℤ, Bool, true, false, Option, none, some, List, [], ◌∷◌, ◌++◌, Dict,
  if◌then◌else◌,
}
use Prim.Native.String.{◌++◌ as join}
use miriam.Decimal.{Decimal, money, cents, leb_dec}
use miriam.Audit.{
  Receipt, Reason, journal_unavailable, already_in_flight, duplicate_key, no_proposed_action,
  rail_failed, rollback, executed, AuditRow, Trigger, system, confirm, aware,
}
use miriam.Ledger.{
  Ledger, Movement, outflow, Result, ok, err, Error, debit, record_movement, remember_receipt,
  receipt_for, balance,
}
use miriam.Limits.{Zone, Policy, LimitReport, evaluate_limits}
use miriam.State.{
  HandlerState, ProposedAction, ActionType, Decision, ActionChoice, require_complete,
}
use miriam.Journal.{
  Journal, JournalClaim, Status, dispatched, confirmed, failed, reserved, reserve, safe_mark,
}
use miriam.Store.{LedgerStore}
use miriam.TransferReceipts.{Env, Outcome, replay, rejected_receipt, audit_row, decision_verdict}

module _ {S : Type 0} (store : LedgerStore S) where
  -- `await store.save(ledger)`, which raises, and then the return of an outcome
  unfoldable pub save_and_return : Outcome → World S → Ended S
  save_and_return o w =
      let (r, s') = store.save w.ledger w.store in
      elim r [
        | ok l' ↦ (ok o, record w { ledger = l'; store = s' })
        | err e ↦ (err e, record w { store = s' })
      ]

  -- a refusal that is remembered, saved and audited
  unfoldable pub refuse : Request → List Reason → ℤ → Trigger → World S → Ended S
  unfolding refusal audit_row
  refuse q reasons amount trigger w =
      let r = refusal q reasons (cents amount) w.ledger in
      save_and_return
        (record {
          receipt = r;
          audit = audit_row q.env w.ledger r (decision_id_of q.state.decision) trigger ∷ [];
        })
        (record w { ledger = remember_receipt r w.ledger })

  unfoldable pub instruction : Request → ℤ → Ledger → TransferInstruction
  instruction q amount l = record {
    user_id = l.user_id;
    amount = amount;
    currency = l.currency;
    counterparty = q.action.counterparty;
    sleeve = q.action.sleeve;
    idempotency_key = request_key q;
    purpose = "transfer";
    confirm_id = decision_id_of q.state.decision;
  }

  abbrev sent_movement : Request → ℤ → String → Movement
  sent_movement q amount reference = record {
    kind = outflow;
    amount = amount;
    sleeve = q.action.sleeve;
    to_sleeve = none;
    counterparty = q.action.counterparty;
    category = "transfer";
    ref = reference;
    at = q.env.at;
  }

  -- the receipt of a settled send, from the sleeves before it and the ledger after the debit
  unfoldable pub sent_receipt : Request → ℤ → String → Dict ℤ → Ledger → Receipt
  sent_receipt q amount reference before l = record {
    id = q.env.receipt_id;
    at = aware q.env.at;
    status = executed;
    action = "transfer";
    currency = l.currency;
    amount = some (cents amount);
    counterparty = q.action.counterparty;
    sleeve = q.action.sleeve;
    decision_id = decision_id_of q.state.decision;
    idempotency_key = request_key q;
    reasons = [];
    sleeves_before = before;
    sleeves_after = l.sleeves;
    rail_reference = reference;
    confirm_id = decision_id_of q.state.decision;
    idempotent_replay = false;
    verified = true;
  }

  -- the second save, whose failure is only logged
  abbrev pub keep_or : Result Ledger × S → Ledger → Ledger × S
  keep_or (ok l', s) l = (l', s)
  keep_or (err e, s) l = (l, s)

  -- the `except` branch: the rail is asked to reverse, and the outcome has the copy of the ledger from
  -- before the debit, with the incident on record, while the object that was passed in, which the
  -- code no longer uses, stays debited; whether the reversal worked shows only in the prose of the receipt
  unfoldable pub roll_back : Request → ℤ → String → Ledger → World S → Ended S
  unfolding refusal audit_row
  roll_back q amount reference before w =
      let refused = refusal q (rollback ∷ []) (cents amount) before in
      let r = record refused { rail_reference = reference } in
      let kept =
        keep_or (store.save (remember_receipt r before) w.store) (remember_receipt r before) in
      (
        ok (record {
          receipt = r;
          audit = audit_row q.env before r (decision_id_of q.state.decision) system ∷ [];
        }),
        record w {
          ledger = kept.0;
          store = kept.1;
          journal = safe_mark q.faults.settle_mark_lost failed (request_key q) reference w.journal;
          reversals = w.reversals ++ (reference ∷ []);
        },
      )

  -- the debit, the journal of movements and receipts, and the save: the `try` block
  unfoldable pub booked : Request → ℤ → String → Ledger → Result (Unit {0}) × Ledger
  unfolding sent_receipt
  booked q amount reference l =
      let (r, l') = debit q.action.sleeve (cents amount) l in
      let l'' = record_movement (sent_movement q amount reference) l' in
      (r, remember_receipt (sent_receipt q amount reference l.sleeves l'') l'')

  unfoldable pub settle : Request → ℤ → String → World S → Ended S
  settle q amount reference w = elim (booked q amount reference w.ledger).0 [
    | err e ↦ roll_back q amount reference w.ledger w
    | ok u ↦
        let l = (booked q amount reference w.ledger).1 in
        let receipt = sent_receipt q amount reference w.ledger.sleeves l in
        let (saved, s') = store.save l w.store in
        elim saved [
          | err e ↦ roll_back q amount reference w.ledger (record w { store = s' })
          | ok l' ↦ (
            ok (record {
              receipt = receipt;
              audit = audit_row q.env l' receipt (decision_id_of q.state.decision) confirm ∷ [];
            }),
            record w {
              ledger = l';
              store = s';
              journal =
                  safe_mark q.faults.settle_mark_lost confirmed (request_key q) reference w.journal;
            },
          )
        ]
  ]

  -- the call of the rail
  unfoldable pub send : Request → ℤ → World S → Ended S
  unfolding instruction
  send q amount w =
      let i = instruction q amount w.ledger in
      let o = q.rail.execute i in
      let j = safe_mark q.faults.dispatch_mark_lost dispatched (request_key q) "" w.journal in
      let w' = record w { journal = j; calls = w.calls ++ (i ∷ []) } in
      if o.ok
      then settle q amount o.reference w'
      else refuse q (rail_failed ∷ []) amount confirm
          (record w' { journal = safe_mark q.faults.settle_mark_lost failed (request_key q) "" j })

  -- the limits of this movement, on the ledger as it is
  unfoldable pub limits_of : Request → ℤ → Ledger → LimitReport
  limits_of q amount l =
      evaluate_limits q.zone q.policy amount q.action.sleeve (balance l "spendable")
        l.rent_first.required l.rent_first.reserved (some l) q.env.at

  unfoldable pub check_limits : Request → ℤ → World S → Ended S
  check_limits q amount w =
      if (limits_of q amount w.ledger).allowed
      then send q amount w
      else refuse q (limits_of q amount w.ledger).reasons amount system w

  unfoldable pub check_decision : Request → World S → Ended S
  check_decision q w =
      if (decision_verdict q.state.decision).0
      then check_limits q (amount_to_send q.state.decision q.amount) w
      else refuse q (decision_verdict q.state.decision).1 (money q.amount) system w

  unfoldable pub check_state : Request → World S → Ended S
  check_state q w = elim (require_complete q.state) [
    | err e ↦ (err e, w)
    | ok u ↦ check_decision q w
  ]

  -- `execute_transfer`, for a STATE that proposes an amount
  unfoldable pub execute_request : Request → World S → Ended S
  execute_request q w = elim (claim_key q w).0 [
    | some r ↦ (ok (record { receipt = r; audit = [] }), (claim_key q w).1)
    | none ↦ check_state q (claim_key q w).1
  ]

  -- the receipt for a STATE that proposes nothing
  abbrev pub nothing_proposed : Env → HandlerState → World S → Ended S
  nothing_proposed env state w = (
    ok (record {
      receipt =
          rejected_receipt env w.ledger "transfer" (no_proposed_action ∷ []) none ""
            (decision_id_of state.decision) "";
      audit = [];
    }),
    w,
  )

  abbrev pub with_amount :
      Env
      → Faults
      → Zone
      → Policy
      → Rail
      → HandlerState
      → ProposedAction
      → Option Decimal
      → World S
      → Ended S
  with_amount env f z p rail state a none w = nothing_proposed env state w
  with_amount env f z p rail state a (some amount) w =
      execute_request
        (record {
          env = env;
          faults = f;
          zone = z;
          policy = p;
          rail = rail;
          state = state;
          action = a;
          amount = amount;
        })
        w

  -- `execute_transfer`
  unfoldable pub execute_transfer :
      Env → Faults → Zone → Policy → Rail → HandlerState → World S → Ended S
  execute_transfer env f z p rail state w = elim state.proposed_action [
    | none ↦ nothing_proposed env state w
    | some a ↦ with_amount env f z p rail state a a.amount w
  ]
