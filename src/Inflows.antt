-- ===== src/Inflows.antt =====
-- The turn of an inbound payment in miriam_agent/orchestrator.py: `_handle_inflow` and
-- `_duplicate_inflow`, on the ledger that `_dispatch` loads. Narration and audit rows are left out;
-- the id of an inflow that has none is a parameter, as the text of a clock.
pub mod Repeats
use miriam.Prelude.{
  ℕ, String, ℤ, pos, Bool, true, false, Option, none, some, List, [], ◌∷◌, str_eq, if◌then◌else◌,
}
use Prim.Native.String.{◌++◌ as join}
use miriam.Decimal.{Decimal, money, cents}
use miriam.Audit.{Receipt, executed, aware}
use miriam.Ledger.{Ledger, PendingInflow, Result, ok, err, value_error, new_ledger, receipt_for}
use miriam.Limits.{Policy}
use miriam.State.{Decision, build_state}
use miriam.Judgment.Answers.{MoneyJudgment}
use miriam.Judgment.Decide.{decide}
use miriam.Store.{LedgerStore}
use miriam.TransferReceipts.{Env, Done, replay}
use miriam.Split.{InflowRequest, SplitOutcome, split_inflow}
use miriam.Payments.{
  Identity, PaymentRefKey, PaymentRefStore, amount_to_minor, key_of, is_complete,
  inflow_id_for_payment,
}

-- the fields of an `Event` of type "inflow"
pub record Delivery : Type 0 where
  pub user_id : String
  pub inflow_id : String
  pub amount : Option Decimal
  pub source_raw : String
  pub channel : String
  pub sender_handle : String
  pub reference : String

-- what the orchestrator holds: the clock and the fresh ids, the text of the clock, the policy, the
-- parameters of an identity, and what the judge answers, under a fresh decision id
pub record Desk : Type 0 where
  pub env : Env
  pub clock_id : String
  pub policy : Policy
  pub identity : Identity
  pub judgment : Option MoneyJudgment
  pub decision_id : String

-- the two stores; a deployment without `payment_refs` has `none`
pub record Stores (S R : Type 0) : Type 0 where
  pub ledgers : S
  pub refs : Option R

abbrev or_text : String → String → String
or_text a b = if str_eq a "" then b else a

-- the key of an inflow of this amount
unfoldable pub key_for : Identity → Delivery → Decimal → PaymentRefKey
unfolding key_of amount_to_minor
key_for i d amount =
    key_of i (or_text d.channel "rail") d.sender_handle (amount_to_minor amount) d.reference

-- the receipt of a repeat that the ledger does not hold
unfoldable pub duplicate_receipt : Env → String → Ledger → Receipt
duplicate_receipt env id l = record {
  id = join "rcpt_duplicate_" id;
  at = aware env.at;
  status = executed;
  action = "inflow_duplicate";
  currency = l.currency;
  amount = some (cents (pos 0));
  counterparty = "";
  sleeve = "spendable";
  decision_id = "";
  idempotency_key = id;
  reasons = [];
  sleeves_before = [];
  sleeves_after = [];
  rail_reference = "";
  confirm_id = "";
  idempotent_replay = true;
  verified = true;
}

abbrev replay_or : Option Receipt → Receipt → Receipt
replay_or none r = r
replay_or (some held) r = replay held

-- `_duplicate_inflow`
unfoldable pub duplicate_inflow : Env → String → Ledger → Receipt
unfolding duplicate_receipt
duplicate_inflow env id l = replay_or (receipt_for id env.at l) (duplicate_receipt env id l)

-- the class that Judgment gives the inflow, on a copy of the ledger with the inflow pending
unfoldable pub class_of : Desk → String → Decimal → String → Ledger → String
class_of k id amount source l =
    let provisional = record l {
      pending_inflow =
          some (record { id = id; amount = amount; source_raw = source; classified_as = none });
    } in
    (decide k.decision_id (build_state provisional (some k.policy) none none k.env.at) provisional
      k.policy k.judgment none).inflow_class

module _ {S R : Type 0} (store : LedgerStore S) (claims : PaymentRefStore R) where
  -- the split, and the receipt of its outcome
  abbrev receipt_of : Result SplitOutcome → Result Receipt
  receipt_of (ok o) = ok o.receipt
  receipt_of (err e) = err e

  unfoldable pub split_turn :
      Desk → String → Decimal → String → Bool → Ledger → Stores S R → Result Receipt × Stores S R
  unfolding class_of
  split_turn k id amount source verified l w =
      let d =
        split_inflow store k.env
          (record {
            id = id;
            amount = amount;
            source_raw = source;
            classified_as = some (class_of k id amount source l);
            verified = verified;
          })
          l w.ledgers in
      (receipt_of d.result, record w { ledgers = d.store })

  -- the claim, where there is a store of payments
  abbrev claim_if : PaymentRefKey → Option R → Bool × Option R
  claim_if key none = (false, none)
  claim_if key (some r) = ((claims.claim key r).0, some (claims.claim key r).1)

  -- an inflow whose identity is complete
  unfoldable pub complete_turn :
      Desk → PaymentRefKey → Decimal → String → Ledger → Stores S R → Result Receipt × Stores S R
  unfolding duplicate_inflow inflow_id_for_payment
  complete_turn k key amount source l w =
      let id = inflow_id_for_payment k.identity key in
      let (duplicate, refs) = claim_if key w.refs in
      let w' = record w { refs = refs } in
      if duplicate
      then (ok (duplicate_inflow k.env id l), w')
      else split_turn k id amount source true l w'

  -- `_handle_inflow`
  unfoldable pub handle_inflow : Desk → Delivery → Ledger → Stores S R → Result Receipt × Stores S R
  unfolding key_for is_complete
  handle_inflow k d l w = elim d.amount [
    | none ↦ (err value_error, w)
    | some amount ↦
        let key = key_for k.identity d amount in
        if is_complete key
        then complete_turn k key amount d.source_raw l w
        else split_turn k (or_text d.inflow_id k.clock_id) amount d.source_raw false l w
  ]

  -- `await self.store.load(user) or new_ledger(user)`, and the turn; a failure of the load is raised
  abbrev pub loaded : String → Option Ledger → Ledger
  loaded user none = new_ledger user "NGN"
  loaded user (some l) = l

  unfoldable pub deliver : Desk → Delivery → Stores S R → Result Receipt × Stores S R
  unfolding handle_inflow
  deliver k d w = elim (store.load d.user_id w.ledgers) [
    | err e ↦ (err e, w)
    | ok found ↦ handle_inflow k d (loaded d.user_id found) w
  ]
