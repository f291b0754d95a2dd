-- ===== src/Split.antt =====
-- miriam_agent/hands/split.py: the split of an inflow over the sleeves, and the rent reserve.
pub mod Amounts
pub mod Frames
pub mod Gains
pub mod Inflow
use miriam.Prelude.{
  ℕ, String, ℤ, pos, ◌+ℤ◌, ◌-ℤ◌, ltb_ℤ, leb_ℤ, min_ℤ, max_ℤ, Bool, true, false, Option, none, some,
  List, [], ◌∷◌, Dict, if◌then◌else◌,
}
use miriam.Decimal.{Decimal, money, cents, percent_of}
use miriam.Audit.{Receipt, executed, aware}
use miriam.Ledger.{
  Ledger, Track, RentFirst, gap, Movement, inflow, reserve, PendingInflow, Result, ok, err, credit,
  move_internal, and_then, record_movement, remember_receipt, receipt_for, balance,
}
use miriam.Store.{LedgerStore}
use miriam.TransferReceipts.{Env, Done, replay, save_then}

pub record Parts : Type 0 where
  pub spendable : ℤ
  pub savings : ℤ
  pub yield_ : ℤ

-- `split_parts`
unfoldable pub split_parts : Track → Decimal → Parts
split_parts track amount =
    let a = money amount in
    let savings = money (percent_of a track.save) in
    let yield_ = money (percent_of a track.yield_) in
    record { spendable = a -ℤ savings -ℤ yield_; savings = savings; yield_ = yield_ }

-- the dict that `split_parts` returns, in its order
abbrev pub parts_dict : Parts → Dict ℤ
parts_dict p = ("spendable", p.spendable) ∷ ("savings", p.savings) ∷ ("yield", p.yield_) ∷ []

-- `rent_reserve_target`
unfoldable pub rent_reserve_target : Ledger → ℤ → ℤ
rent_reserve_target l spendable_after =
    let owed = gap l.rent_first in
    if leb_ℤ owed (pos 0) then pos 0 else min_ℤ owed (max_ℤ (pos 0) spendable_after)

-- the loop that credits each part; a part that is not positive is skipped
unfoldable pub credit_parts : Dict ℤ → Ledger → Result (Unit {0}) × Ledger
credit_parts [] l = (ok tt, l)
credit_parts ((sleeve, value) ∷ parts) l =
    and_then (if ltb_ℤ (pos 0) value then credit sleeve (cents value) l else (ok tt, l))
      (credit_parts parts)

-- the rent reserve: the move into `locked`, the reserve on record and its movement
unfoldable pub record_reserve : ℕ → ℤ → Ledger → Ledger
unfolding record_movement
record_reserve at reserved l =
    record_movement
      (record {
        kind = reserve;
        amount = reserved;
        sleeve = "spendable";
        to_sleeve = some "locked";
        counterparty = "";
        category = "";
        ref = "rent_first";
        at = at;
      })
      (record l {
        rent_first = record l.rent_first { reserved = l.rent_first.reserved +ℤ reserved };
      })

unfoldable pub reserve_rent : ℕ → ℤ → Ledger → Result (Unit {0}) × Ledger
reserve_rent at reserved l =
    if ltb_ℤ (pos 0) reserved
    then and_then (move_internal "spendable" "locked" (cents reserved) l)
        (λ l'. (ok tt, record_reserve at reserved l'))
    else (ok tt, l)

abbrev pub inflow_movement : ℕ → ℤ → String → String → Movement
inflow_movement at amount source id = record {
  kind = inflow;
  amount = amount;
  sleeve = "spendable";
  to_sleeve = none;
  counterparty = source;
  category = "inflow";
  ref = id;
  at = at;
}

pub record SplitOutcome : Type 0 where
  pub receipt : Receipt
  pub parts : Dict ℤ
  pub reserved_for_rent : ℤ
  pub idempotent_replay : Bool

-- an inflow: its id, its amount, the raw source, its class, and whether it is verified
pub record InflowRequest : Type 0 where
  pub id : String
  pub amount : Decimal
  pub source_raw : String
  pub classified_as : Option String
  pub verified : Bool

-- what has been credited and recorded before the rent reserve
unfoldable pub credited : Env → InflowRequest → Ledger → Result (Unit {0}) × Ledger
credited env q l =
    and_then (credit_parts (parts_dict (split_parts l.track q.amount)) l) (λ l'.
      (ok tt, record_movement (inflow_movement env.at (money q.amount) q.source_raw q.id) l'))

-- the whole movement of money: the credits, then the reserve out of what is spendable now
unfoldable pub apply_split : Env → InflowRequest → Ledger → Result (Unit {0}) × Ledger
apply_split env q l =
    and_then (credited env q l)
      (λ l'. reserve_rent env.at (rent_reserve_target l' (balance l' "spendable")) l')

abbrev pub note_inflow : InflowRequest → Ledger → Ledger
note_inflow q l = record l {
  pending_inflow = some (record {
    id = q.id;
    amount = cents (money q.amount);
    source_raw = q.source_raw;
    classified_as = q.classified_as;
  });
}

unfoldable pub split_receipt : Env → InflowRequest → Dict ℤ → Ledger → Receipt
split_receipt env q before l = record {
  id = env.receipt_id;
  at = aware env.at;
  status = executed;
  action = "inflow_split";
  currency = l.currency;
  amount = some (cents (money q.amount));
  counterparty = q.source_raw;
  sleeve = "spendable";
  decision_id = "";
  idempotency_key = q.id;
  reasons = [];
  sleeves_before = before;
  sleeves_after = l.sleeves;
  rail_reference = "";
  confirm_id = "";
  idempotent_replay = false;
  verified = q.verified;
}

-- the amount that `apply_split` reserves
unfoldable pub reserved_now : Env → InflowRequest → Ledger → ℤ
reserved_now env q l =
    let l' = (credited env q l).1 in rent_reserve_target l' (balance l' "spendable")

module _ {S : Type 0} (store : LedgerStore S) where
  -- the end of the call, once the money has moved on the caller's copy
  unfoldable pub finish_split :
      Env → InflowRequest → Ledger → Result (Unit {0}) → Ledger → S → Done SplitOutcome S
  finish_split env q l (err e) l' s = record { result = err e; ledger = l'; store = s }
  finish_split env q l (ok u) l' s =
      let noted = note_inflow q l' in
      let receipt = split_receipt env q l.sleeves noted in
      save_then store
        (record {
          receipt = receipt;
          parts = parts_dict (split_parts l.track q.amount);
          reserved_for_rent = reserved_now env q l;
          idempotent_replay = false;
        })
        (remember_receipt receipt noted) s

  -- `split_inflow`
  unfoldable pub split_inflow : Env → InflowRequest → Ledger → S → Done SplitOutcome S
  split_inflow env q l s = elim (receipt_for q.id env.at l) [
    | some r ↦ record {
      result = ok (record {
        receipt = replay r;
        parts = [];
        reserved_for_rent = pos 0;
        idempotent_replay = true;
      });
      ledger = l;
      store = s;
    }
    | none ↦ let (r, l') = apply_split env q l in finish_split env q l r l' s
  ]
