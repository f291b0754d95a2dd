-- ===== src/Moves.antt =====
-- miriam_agent/hands/transfer.py, the operations beside `execute_transfer`: `handle_debit`,
-- `move_between_sleeves`, `route_yield` and `record_refusal`. The yield rail is a parameter, and the
-- instructions that reach it are given back.
mod Guards
pub mod Debits
pub mod Redelivered
pub mod Frames
pub mod Reversals
pub mod Unlocks
pub mod Yields
unfoldable pub use Guards.*
use miriam.Prelude.{
  ℕ, String, ℤ, pos, ◌-ℤ◌, ltb_ℤ, leb_ℤ, min_ℤ, Bool, true, false, ◌&&◌, Option, none, some, List,
  [], ◌∷◌, ◌++◌, Dict, str_eq, if◌then◌else◌,
}
use Prim.Native.String.{◌++◌ as join}
use miriam.Decimal.{Decimal, money, cents}
use miriam.Audit.{
  Receipt, ReceiptStatus, executed, parked, Reason, non_positive_amount, insufficient_spendable,
  locked_sleeve, rent_reserved, over_balance, over_limit, yield_rail_down, Trigger, event, system,
  confirm, aware,
}
use miriam.Ledger.{
  Ledger, Movement, MovementKind, outflow, internal, unlock, Result, ok, err, balance, debit,
  move_internal, record_movement, remember_receipt, receipt_for,
}
use miriam.Limits.{Policy, is_locked, when}
use miriam.State.{ProposedAction}
use miriam.Store.{LedgerStore}
use miriam.TransferReceipts.{Env, Outcome, Done, replay, rejected_receipt, audit_row, save_then}
use miriam.Transfer.{Rail, RailOutcome, TransferInstruction, proposal_signature, type_text}

module _ {S : Type 0} (store : LedgerStore S) where
  -- the receipt is remembered, the ledger is saved, and the receipt is returned with an audit row
  unfoldable pub finish : Env → Receipt → String → Trigger → Ledger → S → Done Outcome S
  finish env r decision_id trigger l s =
      save_then store (record { receipt = r; audit = audit_row env l r decision_id trigger ∷ [] })
        (remember_receipt r l) s

  abbrev replayed : Receipt → Ledger → S → Done Outcome S
  replayed r l s = record {
    result = ok (record { receipt = replay r; audit = [] });
    ledger = l;
    store = s;
  }

  -- `handle_debit`, and `handle_reversal`, which is the same function
  unfoldable pub debit_now : Env → String → ℤ → String → Ledger → S → Done Outcome S
  debit_now env payment_id amount reason l s = elim (debit_reasons amount l) [
    | x ∷ xs ↦
        finish env
          (rejected_receipt env l "debit" (x ∷ xs) (some (cents amount)) reason "" payment_id) ""
          event l s
    | [] ↦
        let (r, l₁) = debit "spendable" (cents amount) l in
        elim r [
          | err e ↦ record { result = err e; ledger = l₁; store = s }
          | ok u ↦
              let l₂ = record_movement (debit_movement env payment_id amount reason) l₁ in
              finish env
                (moved_receipt env executed "debit" amount reason "spendable" "" payment_id [] ""
                  l.sleeves l₂)
                "" event l₂ s
        ]
  ]

  unfoldable pub handle_debit : Env → String → Decimal → String → Ledger → S → Done Outcome S
  handle_debit env payment_id amount reason l s = elim (receipt_for payment_id env.at l) [
    | some r ↦ replayed r l s
    | none ↦ debit_now env payment_id (money amount) reason l s
  ]

  -- `move_between_sleeves`
  unfoldable pub move_now :
      Env → Policy → String → String → ℤ → String → String → String → Ledger → S → Done Outcome S
  move_now env p from_sleeve to_sleeve amount action decision_id key l s =
      elim (move_reasons p from_sleeve amount l) [
        | x ∷ xs ↦
            finish env
              (rejected_receipt env l action (x ∷ xs) (some (cents amount)) "" decision_id key)
              decision_id system l s
        | [] ↦
            let (r, l₁) = move_internal from_sleeve to_sleeve (cents amount) l in
            elim r [
              | err e ↦ record { result = err e; ledger = l₁; store = s }
              | ok u ↦
                  let l₂ =
                    record_movement (move_movement env from_sleeve to_sleeve amount action)
                      (release_rent from_sleeve to_sleeve amount l₁) in
                  finish env
                    (moved_receipt env executed action amount "" to_sleeve decision_id key [] ""
                      l.sleeves l₂)
                    decision_id confirm l₂ s
            ]
      ]

  unfoldable pub move_between_sleeves :
      Env → Policy → String → String → Decimal → String → String → Ledger → S → Done Outcome S
  move_between_sleeves env p from_sleeve to_sleeve amount action decision_id l s =
      let key = move_key env action decision_id (money amount) in
      elim (receipt_for key env.at l) [
        | some r ↦ replayed r l s
        | none ↦ move_now env p from_sleeve to_sleeve (money amount) action decision_id key l s
      ]

  -- `route_yield`
  unfoldable pub routed :
      Env → Policy → ℤ → String → String → RailOutcome → Ledger → S → Done Outcome S
  routed env p amount decision_id key o l s =
      let sleeve = if o.ok then "yield" else p.yield_fallback in
      let (r, l₁) = move_internal "spendable" sleeve (cents amount) l in
      elim r [
        | err e ↦ record { result = err e; ledger = l₁; store = s }
        | ok u ↦
            finish env
              (moved_receipt env (if o.ok then executed else parked) "yield_route" amount
                "yield_partner" sleeve decision_id key
                (when (if o.ok then false else true) yield_rail_down)
                (if o.ok then o.reference else "") l.sleeves l₁)
              decision_id system l₁ s
      ]

  unfoldable pub route_yield :
      Env
      → Policy
      → Option Rail
      → Decimal
      → String
      → Ledger
      → S
      → Done Outcome S × List TransferInstruction
  route_yield env p rail amount decision_id l s =
      let key = yield_key env l (money amount) in
      elim (receipt_for key env.at l) [
        | some r ↦ (replayed r l s, [])
        | none ↦
            let (o, calls) = yield_outcome rail (yield_instruction (money amount) key l) in
            (routed env p (money amount) decision_id key o l s, calls)
      ]

  -- `record_refusal`
  unfoldable pub record_refusal :
      Env → ProposedAction → List Reason → String → Ledger → S → Done Outcome S
  record_refusal env a reasons decision_id l s =
      let key = join "refused:" (join decision_id (join ":" (proposal_signature env a))) in
      finish env
        (rejected_receipt env l (type_text a.type) reasons a.amount a.counterparty decision_id key)
        decision_id system l s
