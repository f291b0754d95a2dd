-- ===== src/Ledger.antt =====
-- miriam_agent/hands/ledger.py: the ledger of one user, and the operations that write a balance or
-- the journal of receipts. An operation that may raise gives its result beside the ledger, since
-- what was written before a raise stays written. Of a challenge the fields of its live card are left
-- out, and so are the pending Glider flows and orders.
pub mod Balances
pub mod Frames
pub mod Receipts
pub mod Window
use miriam.Prelude.{
  ℕ, ◌+◌, ◌-◌, String, ℤ, pos, ◌+ℤ◌, ◌-ℤ◌, ltb_ℤ, leb_ℤ, max_ℤ, Bool, true, false, ◌&&◌, ◌||◌,
  Option, none, some, List, [], ◌∷◌, ◌++◌, Dict, lookup, insert, set_default, get_or, is_some,
  keep_last, ltb, str_eq, if◌then◌else◌, ◌≡◌,
}
use miriam.Decimal.{Decimal, money, whole, add, cents, leb_dec}
use miriam.Audit.{Receipt, ReceiptStatus, noop, Moment, aware, Reason}

-- `LedgerError`, `LedgerConflictError`, `LedgerUnavailable`, `InsufficientState`, `ValueError`.
pub data Error : Type 0 where
  ledger_error conflict unavailable insufficient_state value_error : Error

pub data Result {ℓ} (A : Type ℓ) : Type ℓ where
  ok : A → Result A
  err : Error → Result A

pub record Track : Type 0 where
  pub name : String
  pub spend : Decimal
  pub save : Decimal
  pub yield_ : Decimal

-- `Track._sums_to_100`, run by the constructor: the three ratios sum to exactly 100.
unfoldable pub make_track : String → Decimal → Decimal → Decimal → Result Track
unfolding add leb_dec
make_track name spend save yield_ =
    let sum = add (add spend save) yield_ in
    if leb_dec sum (whole (pos 100)) && leb_dec (whole (pos 100)) sum
    then ok (record { name = name; spend = spend; save = save; yield_ = yield_ })
    else err value_error

abbrev pub default_track : Track
default_track = record {
  name = "70/30";
  spend = whole (pos 70);
  save = whole (pos 30);
  yield_ = whole (pos 0);
}

pub record RentFirst : Type 0 where
  pub required : ℤ
  pub reserved : ℤ
  pub due_in_days : Option ℕ

-- `RentFirst.gap`
unfoldable pub gap : RentFirst → ℤ
gap r = max_ℤ (pos 0) (r.required -ℤ r.reserved)

pub data MovementKind : Type 0 where
  inflow outflow internal reserve unlock : MovementKind

pub record Movement : Type 0 where
  pub kind : MovementKind
  pub amount : ℤ
  pub sleeve : String
  pub to_sleeve : Option String
  pub counterparty : String
  pub category : String
  pub ref : String
  pub at : ℕ

pub data ChallengeStatus : Type 0 where
  pending consumed expired declined : ChallengeStatus

pub record Challenge : Type 0 where
  pub id : String
  pub user_id : String
  pub action : String
  pub amount : Decimal
  pub counterparty : String
  pub destination : String
  pub sleeve : String
  pub decision_id : String
  pub reasons : List Reason
  pub created_at : ℕ
  pub expires_at : ℕ
  pub status : ChallengeStatus
  pub meta : Dict String

abbrev is_pending : ChallengeStatus → Bool
is_pending pending = true
is_pending _ = false

-- `Challenge.is_open`
unfoldable pub is_open : Challenge → ℕ → Bool
is_open c at = is_pending c.status && ltb at c.expires_at

pub record PendingInflow : Type 0 where
  pub id : String
  pub amount : Decimal
  pub source_raw : String
  pub classified_as : Option String

pub record Ledger : Type 0 where
  pub user_id : String
  pub currency : String
  pub sleeves : Dict ℤ
  pub track : Track
  pub rent_first : RentFirst
  pub movements : List Movement
  pub receipts : List Receipt
  pub challenges : Dict Challenge
  pub pending_inflow : Option PendingInflow
  pub processed : Dict String
  pub version : ℕ

abbrev pub sleeve_names : List String
sleeve_names = "spendable" ∷ "savings" ∷ "yield" ∷ "locked" ∷ []

-- `new_ledger`
unfoldable pub new_ledger : String → String → Ledger
new_ledger user_id currency = record {
  user_id = user_id;
  currency = currency;
  sleeves = ("spendable", pos 0) ∷ ("savings", pos 0) ∷ ("yield", pos 0) ∷ ("locked", pos 0) ∷ [];
  track = default_track;
  rent_first = record { required = pos 0; reserved = pos 0; due_in_days = none };
  movements = [];
  receipts = [];
  challenges = [];
  pending_inflow = none;
  processed = [];
  version = 0;
}

-- `Ledger.balance`
unfoldable pub balance : Ledger → String → ℤ
balance l sleeve = get_or (lookup sleeve l.sleeves) (pos 0)

-- the test of `Ledger._require_known`
unfoldable pub is_known : String → Bool
is_known s = str_eq s "spendable" || (str_eq s "savings" || (str_eq s "yield" || str_eq s "locked"))

abbrev pub put_balance : Ledger → String → ℤ → Ledger
put_balance l sleeve v = record l { sleeves = insert sleeve v l.sleeves }

-- `Ledger.credit`
unfoldable pub credit : String → Decimal → Ledger → Result (Unit {0}) × Ledger
unfolding is_known balance
credit sleeve amount l =
    if is_known sleeve
    then (ok tt, put_balance l sleeve (balance l sleeve +ℤ money amount))
    else (err ledger_error, l)

-- `Ledger.debit`
unfoldable pub debit : String → Decimal → Ledger → Result (Unit {0}) × Ledger
unfolding is_known balance
debit sleeve amount l =
    if is_known sleeve
    then (if ltb_ℤ (balance l sleeve) (money amount)
        then (err ledger_error, l)
        else (ok tt, put_balance l sleeve (balance l sleeve -ℤ money amount)))
    else (err ledger_error, l)

-- an exception of the first part ends the call, with what was written so far
abbrev pub and_then :
    Result (Unit {0}) × Ledger → (Ledger → Result (Unit {0}) × Ledger) → Result (Unit {0}) × Ledger
and_then (ok _, l) f = f l
and_then (err e, l) f = (err e, l)

-- `Ledger.move_internal`
unfoldable pub move_internal : String → String → Decimal → Ledger → Result (Unit {0}) × Ledger
move_internal from_sleeve to_sleeve amount l =
    and_then (debit from_sleeve amount l) (credit to_sleeve amount)

abbrev pub movement_retention : ℕ
movement_retention = 2000

abbrev pub receipt_retention : ℕ
receipt_retention = 500

-- `Ledger.record_movement`
unfoldable pub record_movement : Movement → Ledger → Ledger
record_movement m l = record l {
  movements = keep_last movement_retention (l.movements ++ (m ∷ []));
}

-- `Ledger.remember_receipt`; an empty key is not remembered
unfoldable pub remember_receipt : Receipt → Ledger → Ledger
remember_receipt r l = record l {
  receipts = keep_last receipt_retention (l.receipts ++ (r ∷ []));
  processed =
      if str_eq r.idempotency_key ""
      then l.processed
      else set_default r.idempotency_key r.id l.processed;
}

-- the first receipt with an id
unfoldable pub find_receipt : String → List Receipt → Option Receipt
find_receipt id [] = none
find_receipt id (r ∷ rs) = if str_eq r.id id then some r else find_receipt id rs

-- the stub for a receipt whose body has been trimmed
abbrev pub archived : Ledger → String → String → ℕ → Receipt
archived l key id now = record {
  id = id;
  at = aware now;
  status = noop;
  action = "archived";
  currency = l.currency;
  amount = none;
  counterparty = "";
  sleeve = "";
  decision_id = "";
  idempotency_key = key;
  reasons = [];
  sleeves_before = [];
  sleeves_after = [];
  rail_reference = "";
  confirm_id = "";
  idempotent_replay = false;
  verified = true;
}

-- `Ledger.receipt_for`; `now` is the clock that the stub reads
unfoldable pub receipt_for : String → ℕ → Ledger → Option Receipt
unfolding find_receipt
receipt_for key now l = elim (lookup key l.processed) [
  | none ↦ none
  | some id ↦ some (get_or (find_receipt id l.receipts) (archived l key id now))
]

-- `Ledger.touch`
unfoldable pub touch : Ledger → Ledger
touch l = record l { version = l.version + 1 }
