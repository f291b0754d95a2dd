-- ===== src/Bills.antt =====
-- The payment of a bill: `_handle_confirm_bill` of miriam_agent/hands/settle_funding.py, up to the
-- narration. The parser of bills is left out.
pub mod Paid
use miriam.Prelude.{
  ℕ, ◌-◌, String, Bool, true, false, ◌||◌, Option, none, some, List, [], ◌∷◌, lookup, get_or,
  str_eq, if◌then◌else◌,
}
use Prim.Native.String.{slice, len, ◌++◌ as join}
use miriam.Audit.{
  Receipt, ReceiptStatus, executed, rejected, Reason, no_go_token, bill_pay_failed, is_executed,
}
use miriam.Ledger.{Ledger, Challenge, pending, consumed, Result, ok, err, remember_receipt}
use miriam.Store.{LedgerStore}
use miriam.Settlement.{or_text, put_challenge}
use miriam.Host.{
  Reply, Answer, replied, Request, detect_network, pay_bill, Desk, Site, Card, bill_card, Placed,
  tool_error, first_text, ask_host, host_receipt, save_site,
}

abbrev meta_text : String → Challenge → String
meta_text k c = get_or (lookup k c.meta) ""

abbrev pub category_of : Challenge → String
category_of c = or_text (meta_text "category" c) "airtime"

abbrev pub recipient_of : Challenge → String
recipient_of c = or_text (meta_text "recipient" c) c.counterparty

abbrev pub bill_key : Challenge → String
bill_key c = join "bill:" c.id

-- the receipt of a bill, under the id and the key of its challenge
unfoldable pub bill_receipt : Desk → Challenge → ReceiptStatus → List Reason → Ledger → Receipt
bill_receipt d c status reasons l =
    record (host_receipt d.env l status "bill_pay" (some c.amount) (recipient_of c) c.sleeve
      c.decision_id (bill_key c) reasons) {
        id = join "rcpt_bill_" (slice c.id (len c.id - 8) (len c.id));
        confirm_id = c.id;
      }

-- a reply that is no error
abbrev accepted : Desk → Answer → Option Reply
accepted d (replied r) = if str_eq (first_text d.words (tool_error ∷ []) r) "" then some r else none
accepted d _ = none

abbrev network_of : Desk → Option Reply → String
network_of d none = ""
network_of d (some r) = first_text d.words ("network_id" ∷ "networkId" ∷ []) r

-- what a bill is that the host has, or has not, accepted
abbrev bill_placed : Desk → Challenge → Ledger → Option Reply → Placed
bill_placed d c l none = record {
  receipt = bill_receipt d c rejected (bill_pay_failed ∷ []) l;
  card = none;
}
bill_placed d c l (some r) = record {
  receipt = record (bill_receipt d c executed [] l) {
    currency = "NGN";
    rail_reference = first_text d.words ("airbills_id" ∷ "order_id" ∷ []) r;
  };
  card = some bill_card;
}

module _ {S : Type 0} where
  -- the network of a phone, for airtime and data
  unfoldable pub find_network : Desk → Challenge → Site S → String × Site S
  unfolding ask_host first_text
  find_network d c t =
      if str_eq (category_of c) "airtime" || str_eq (category_of c) "data"
      then (let (a, t') = ask_host d (detect_network (recipient_of c)) t in
          (network_of d (accepted d a), t'))
      else ("", t)

  -- what the bill comes to; nothing is remembered yet
  unfoldable pub pay : Desk → Challenge → Site S → Placed × Site S
  unfolding ask_host first_text
  pay d c t =
      if str_eq d.token ""
      then (
        record { receipt = bill_receipt d c rejected (no_go_token ∷ []) t.ledger; card = none },
        t,
      )
      else (let (network, t₁) = find_network d c t in
          let (a, t₂) =
            ask_host d (pay_bill (category_of c) (recipient_of c) c.amount network (bill_key c))
              t₁ in
          (bill_placed d c t₂.ledger (accepted d a), t₂))

-- the receipt is remembered, and the challenge is consumed where the bill is paid
unfoldable pub close_bill : Challenge → Receipt → Ledger → Ledger
unfolding is_executed
close_bill c r l =
    put_challenge (if is_executed r.status then consumed else pending) c (remember_receipt r l)

module _ {S : Type 0} (store : LedgerStore S) where
  -- `_handle_confirm_bill`
  unfoldable pub confirm_bill : Desk → Challenge → Site S → Result Placed × Site S
  confirm_bill d c t =
      let (p, t') = pay d c t in
      save_site store p (record t' { ledger = close_bill c p.receipt t'.ledger })
