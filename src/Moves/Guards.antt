-- ===== src/Moves/Guards.antt =====
-- miriam_agent/hands/transfer.py: the guards, the keys, the movements and the receipts of `handle_debit`,
-- `move_between_sleeves` and `route_yield`.
use miriam.Prelude.{
  String, ℤ, pos, ◌-ℤ◌, ltb_ℤ, leb_ℤ, min_ℤ, true, false, ◌&&◌, Option, none, some, List, [], ◌∷◌,
  ◌++◌, Dict, str_eq, if◌then◌else◌,
}
use Prim.Native.String.{◌++◌ as join}
use miriam.Decimal.{cents}
use miriam.Audit.{
  Receipt, ReceiptStatus, Reason, non_positive_amount, insufficient_spendable, locked_sleeve,
  rent_reserved, over_balance, over_limit, aware,
}
use miriam.Ledger.{Ledger, Movement, MovementKind, outflow, internal, unlock, balance}
use miriam.Limits.{Policy, is_locked, when}
use miriam.TransferReceipts.{Env}
use miriam.Transfer.{Rail, RailOutcome, TransferInstruction}

-- the receipt of an operation that went through
unfoldable pub moved_receipt :
    Env
    → ReceiptStatus
    → String
    → ℤ
    → String
    → String
    → String
    → String
    → List Reason
    → String
    → Dict ℤ
    → Ledger
    → Receipt
moved_receipt env status action amount counterparty sleeve decision_id key reasons reference before
      l =
    record {
      id = env.receipt_id;
      at = aware env.at;
      status = status;
      action = action;
      currency = l.currency;
      amount = some (cents amount);
      counterparty = counterparty;
      sleeve = sleeve;
      decision_id = decision_id;
      idempotency_key = key;
      reasons = reasons;
      sleeves_before = before;
      sleeves_after = l.sleeves;
      rail_reference = reference;
      confirm_id = "";
      idempotent_replay = false;
      verified = true;
    }

-- why a Go debit is refused
unfoldable pub debit_reasons : ℤ → Ledger → List Reason
debit_reasons amount l =
    if leb_ℤ amount (pos 0)
    then non_positive_amount ∷ []
    else when (ltb_ℤ (balance l "spendable") amount) insufficient_spendable

-- the preconditions of a move between two sleeves
unfoldable pub move_reasons : Policy → String → ℤ → Ledger → List Reason
move_reasons p from_sleeve amount l =
    when (leb_ℤ amount (pos 0)) non_positive_amount
    ++ (when (is_locked p from_sleeve) locked_sleeve
        ++ (when
              (str_eq from_sleeve "locked"
                && ltb_ℤ (balance l "locked" -ℤ l.rent_first.reserved) amount)
              rent_reserved
            ++ (when (ltb_ℤ (balance l from_sleeve) amount) over_balance
                ++ when (ltb_ℤ p.max_with_confirm amount) over_limit)))

-- the rent reserve after money has left `locked` for `spendable`
unfoldable pub release_rent : String → String → ℤ → Ledger → Ledger
release_rent from_sleeve to_sleeve amount l =
    if str_eq from_sleeve "locked" && str_eq to_sleeve "spendable"
    then record l {
      rent_first = record l.rent_first {
        reserved = l.rent_first.reserved -ℤ min_ℤ l.rent_first.reserved amount;
      };
    }
    else l

abbrev move_kind : String → MovementKind
move_kind s = if str_eq s "locked" then unlock else internal

-- the idempotency key of a move: of the decision, or a fresh one
abbrev pub move_key : Env → String → String → ℤ → String
move_key env action decision_id amount =
    if str_eq decision_id ""
    then join action (join ":" env.fresh_key)
    else join action (join ":" (join decision_id (join ":" (env.text (cents amount)))))

-- the idempotency key of a yield: one for each user, amount and day
abbrev pub yield_key : Env → Ledger → ℤ → String
yield_key env l amount =
    join "yield:"
      (join l.user_id (join ":" (join (env.text (cents amount)) (join ":" env.date_text))))

-- what the yield rail answers; a rail that is not configured is down
abbrev pub yield_outcome :
    Option Rail → TransferInstruction → RailOutcome × List TransferInstruction
yield_outcome none i = (record { ok = false; reference = "" }, [])
yield_outcome (some rail) i = (rail.execute i, i ∷ [])

abbrev pub debit_movement : Env → String → ℤ → String → Movement
debit_movement env payment_id amount reason = record {
  kind = outflow;
  amount = amount;
  sleeve = "spendable";
  to_sleeve = none;
  counterparty = reason;
  category = "debit";
  ref = payment_id;
  at = env.at;
}

abbrev pub move_movement : Env → String → String → ℤ → String → Movement
move_movement env from_sleeve to_sleeve amount action = record {
  kind = move_kind from_sleeve;
  amount = amount;
  sleeve = from_sleeve;
  to_sleeve = some to_sleeve;
  counterparty = "";
  category = "";
  ref = action;
  at = env.at;
}

abbrev pub yield_instruction : ℤ → String → Ledger → TransferInstruction
yield_instruction amount key l = record {
  user_id = l.user_id;
  amount = amount;
  currency = l.currency;
  counterparty = "yield_partner";
  sleeve = "yield";
  idempotency_key = key;
  purpose = "yield";
  confirm_id = "";
}
