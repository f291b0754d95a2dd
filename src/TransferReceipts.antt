-- ===== src/TransferReceipts.antt =====
-- miriam_agent/hands/transfer_receipts.py: the receipt of a refusal, the audit row of a receipt and
-- the check of a decision; and what an operation of Hands takes from its surroundings and gives back.
-- Fresh ids, the clock and the text of a Decimal are parameters, gathered in `Env`.
pub mod Saving
use miriam.Prelude.{
  ℕ, String, ℤ, Bool, true, false, Option, none, some, List, [], ◌∷◌, Dict, if◌then◌else◌,
}
use miriam.Decimal.{Decimal, cents}
use miriam.Audit.{
  Receipt, ReceiptStatus, rejected, executed, Reason, no_decision, not_act_mode, decision_denied,
  AuditRow, Trigger, Moment, aware,
}
use miriam.Ledger.{Ledger, Result, ok, err, Error, remember_receipt}
use miriam.State.{Decision, NextMode, act, ask, stay_quiet, ActionChoice, allow, allow_smaller}
use miriam.Store.{LedgerStore}

-- the fresh receipt and audit ids, the instant of the call, the prints of an amount and of a date,
-- and a fresh key
pub record Env : Type 0 where
  pub receipt_id : String
  pub audit_id : String
  pub at : ℕ
  pub text : Decimal → String
  pub date_text : String
  pub fresh_key : String

-- `_rejected`
unfoldable pub rejected_receipt :
    Env → Ledger → String → List Reason → Option Decimal → String → String → String → Receipt
rejected_receipt env l action reasons amount counterparty decision_id key = record {
  id = env.receipt_id;
  at = aware env.at;
  status = rejected;
  action = action;
  currency = l.currency;
  amount = amount;
  counterparty = counterparty;
  sleeve = "spendable";
  decision_id = decision_id;
  idempotency_key = key;
  reasons = reasons;
  sleeves_before = l.sleeves;
  sleeves_after = l.sleeves;
  rail_reference = "";
  confirm_id = "";
  idempotent_replay = false;
  verified = true;
}

-- `_audit`
unfoldable pub audit_row : Env → Ledger → Receipt → String → Trigger → AuditRow
audit_row env l r decision_id trigger = record {
  id = env.audit_id;
  at = r.at;
  user_id = l.user_id;
  action = r.action;
  trigger = trigger;
  amount = r.amount;
  currency = r.currency;
  sleeve = r.sleeve;
  counterparty = r.counterparty;
  sleeves_before = r.sleeves_before;
  sleeves_after = r.sleeves_after;
  decision_id = decision_id;
  receipt_id = r.id;
  idempotency_key = r.idempotency_key;
}

abbrev verdict_on_choice : ActionChoice → Bool × List Reason
verdict_on_choice allow = (true, [])
verdict_on_choice allow_smaller = (true, [])
verdict_on_choice _ = (false, decision_denied ∷ [])

abbrev verdict_on_mode : NextMode → ActionChoice → Bool × List Reason
verdict_on_mode act c = verdict_on_choice c
verdict_on_mode _ c = (false, not_act_mode ∷ [])

-- `_decision_verdict`
unfoldable pub decision_verdict : Option Decision → Bool × List Reason
decision_verdict none = (false, no_decision ∷ [])
decision_verdict (some d) = verdict_on_mode d.next_mode d.action_choice

-- `TransferOutcome` without its ledger, which `Done` holds
pub record Outcome : Type 0 where
  pub receipt : Receipt
  pub audit : List AuditRow

-- How a call ends: what it returns or raises, the caller's ledger object, and the store.
pub record Done (A S : Type 0) : Type 0 where
  pub result : Result A
  pub ledger : Ledger
  pub store : S

-- a replay: the receipt of the first run, marked, and nothing written
abbrev pub replay : Receipt → Receipt
replay r = record r { idempotent_replay = true }

module _ {S A : Type 0} (store : LedgerStore S) where
  -- `await store.save(ledger)` and then the return
  unfoldable pub save_then : A → Ledger → S → Done A S
  save_then a l s =
      let (r, s') = store.save l s in
      elim r [
        | ok l' ↦ record { result = ok a; ledger = l'; store = s' }
        | err e ↦ record { result = err e; ledger = l; store = s' }
      ]
