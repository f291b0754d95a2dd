-- ===== src/Host.antt =====
-- The Go host as the operations of miriam_agent/hands/ see it. What it answers to a request, after
-- all that it was asked before, is a parameter, and every request is recorded. A reply is a dict of
-- values as `json` reads them; how `str` prints a nested value is a parameter, and so are the methods
-- of `str` and the pattern of a code.
pub mod Frames
use miriam.Prelude.{
  ℕ, String, Bool, true, false, Option, none, some, List, [], ◌∷◌, ◌++◌, Dict, lookup, str_eq,
  if◌then◌else◌,
}
use Prim.Native.String.{◌++◌ as join}
use miriam.Decimal.{Decimal}
use miriam.Audit.{Receipt, ReceiptStatus, rejected, Reason, aware}
use miriam.Ledger.{Ledger, Challenge, Result, ok, err, remember_receipt}
use miriam.Store.{LedgerStore}
use miriam.TransferReceipts.{Env}

pub data Leaf : Type 0 where
  null : Leaf
  flag : Bool → Leaf
  text : String → Leaf

pub data Value : Type 0 where
  leaf : Leaf → Value
  fields : Dict Leaf → Value
  rows : List (Option (Dict Leaf)) → Value

abbrev pub Reply : Type 0
Reply = Dict Value

-- a dict, a list of dicts, a value of another type, an exception, or `CoolingDownError` with its wait
pub data Answer : Type 0 where
  replied : Reply → Answer
  listed : List Reply → Answer
  garbled raised : Answer
  cooling_down : Option ℕ → Answer

-- the calls of the client, each with what it carries beside the token
pub data Request : Type 0 where
  get_crypto_quote : Decimal → Request
  paj_initiate_session : String → String → Request
  paj_verify_otp : String → String → String → Request
  funding_create_onramp : String → Decimal → String → String → Request
  detect_network : String → Request
  pay_bill : String → String → Decimal → String → String → Request
  rebalance_strategy pause_strategy resume_strategy : String → Request
  list_automations : Request
  update_automation : String → String → String → Request
  list_strategies search_assets : Request
  create_order : String → String → String → Decimal → Option String → Request

abbrev pub Host : Type 0
Host = List Request → Request → Answer

pub record Words : Type 0 where
  pub strip : String → String
  pub lower : String → String
  pub upper : String → String
  pub print : Value → String
  pub is_code : String → Bool
  pub contains : String → String → Bool
  pub strip_x : String → String
  pub is_caip19 : String → Bool

-- what a call of Hands holds: the receipt id and the clock, the host with the token (empty where there
-- is none), and a fresh suffix
pub record Desk : Type 0 where
  pub env : Env
  pub host : Host
  pub token : String
  pub words : Words
  pub suffix : String

-- the ledger object of the call, the store, and what the host has been asked
pub record Site (S : Type 0) : Type 0 where
  pub ledger : Ledger
  pub store : S
  pub asked : List Request

-- the card that a call returns, by its kind
pub data Card : Type 0 where
  paj_otp : String → Card
  onramp_order bill_card offramp_envelope : Card
  rebalance_queued : Option ℕ → Card
  rebalance_confirm order_confirm : String → Card

pub record Placed : Type 0 where
  pub receipt : Receipt
  pub card : Option Card

abbrev pub tool_error : String
tool_error = "_tool_error"

-- `str(v or "")`
abbrev leaf_text : Leaf → String
leaf_text null = ""
leaf_text (flag true) = "True"
leaf_text (flag false) = ""
leaf_text (text s) = s

abbrev value_text : Words → Value → String
value_text w (leaf x) = leaf_text x
value_text w (fields []) = ""
value_text w (fields (e ∷ d)) = w.print (fields (e ∷ d))
value_text w (rows []) = ""
value_text w (rows (r ∷ rs)) = w.print (rows (r ∷ rs))

abbrev text_of : Words → Option Value → String
text_of w none = ""
text_of w (some v) = value_text w v

-- `str(d.get(k₁) or d.get(k₂) or ... or "")`
unfoldable pub first_text : Words → List String → Reply → String
first_text w [] d = ""
first_text w (k ∷ ks) d =
    if str_eq (text_of w (lookup k d)) "" then first_text w ks d else text_of w (lookup k d)

abbrev pub as_values : Dict Leaf → Reply
as_values [] = []
as_values ((k, x) ∷ d) = (k, leaf x) ∷ as_values d

abbrev inner : Option Value → Reply
inner (some (fields d)) = as_values d
inner _ = []

-- `d.get(k, {})`, where it is a dict
unfoldable pub nested : String → Reply → Reply
nested k d = inner (lookup k d)

abbrev items : Option Value → List (Option (Dict Leaf))
items (some (rows rs)) = rs
items _ = []

-- `d.get(k, [])`, where it is a list
unfoldable pub rows_at : String → Reply → List (Option (Dict Leaf))
rows_at k d = items (lookup k d)

unfoldable pub ask_host : {S : Type 0} → Desk → Request → Site S → Answer × Site S
ask_host d q t = (d.host t.asked q, record t { asked = t.asked ++ (q ∷ []) })

-- a receipt of a call that moves no balance
unfoldable pub host_receipt :
    Env
    → Ledger
    → ReceiptStatus
    → String
    → Option Decimal
    → String
    → String
    → String
    → String
    → List Reason
    → Receipt
host_receipt env l status action amount counterparty sleeve decision_id key reasons = record {
  id = env.receipt_id;
  at = aware env.at;
  status = status;
  action = action;
  currency = l.currency;
  amount = amount;
  counterparty = counterparty;
  sleeve = sleeve;
  decision_id = decision_id;
  idempotency_key = key;
  reasons = reasons;
  sleeves_before = l.sleeves;
  sleeves_after = l.sleeves;
  rail_reference = "";
  confirm_id = "";
  idempotent_replay = false;
  verified = true;
}

-- the receipt of a refusal that a leg writes itself; it has no key
unfoldable pub leg_receipt : Desk → Challenge → String → Reason → Ledger → Receipt
leg_receipt d c action reason l =
    record (host_receipt d.env l rejected action (some c.amount) c.counterparty c.sleeve
      c.decision_id "" (reason ∷ [])) {
        id = join "rcpt_rejected_" c.id;
        sleeves_before = [];
        sleeves_after = [];
      }

-- `ledger.remember_receipt(receipt)`, and the return
unfoldable pub remembered : {S : Type 0} → Receipt → Option Card → Site S → Result Placed × Site S
remembered r card t =
    (ok (record { receipt = r; card = card }), record t { ledger = remember_receipt r t.ledger })

module _ {S : Type 0} (store : LedgerStore S) where
  -- `await store.save(ledger)`, which may raise, and then the return
  unfoldable pub save_site : {A : Type 0} → A → Site S → Result A × Site S
  save_site a t =
      let (r, s') = store.save t.ledger t.store in
      elim r [
        | ok l' ↦ (ok a, record t { ledger = l'; store = s' })
        | err e ↦ (err e, record t { store = s' })
      ]

-- what comes after a call that may raise
abbrev pub and_next :
    {S A B : Type 0} → Result A × Site S → (A → Site S → Result B × Site S) → Result B × Site S
and_next (ok a, t) f = f a t
and_next (err e, t) f = (err e, t)
