-- ===== src/Settlement/Challenges.antt =====
-- The life of a challenge: `_create_challenge` and `_decline_challenge` of
-- miriam_agent/orchestrator.py, `expire_challenge` and `maybe_reopen_challenge` of
-- miriam_agent/hands/settlement.py. The live card of a challenge is left out.
use miriam.Prelude.{
  ℕ, ◌+◌, ◌-◌, ◌*◌, String, pos, Bool, true, false, ◌||◌, Option, none, some, List, [], ◌∷◌, lookup,
  Dict, ◌&&◌, insert, if◌then◌else◌,
}
use Prim.Native.String.{slice, len, ◌++◌ as join}
use miriam.Decimal.{Decimal, money, cents, whole, ltb_dec}
use miriam.Audit.{
  Receipt, ReceiptStatus, rejected, Reason, challenge_expired, user_declined, aware,
  glider_unreachable, glider_not_live, rate_unavailable, paj_initiate_failed, onramp_failed,
  no_go_token, automations_unreachable,
}
use miriam.Ledger.{
  Ledger, Challenge, pending, consumed, expired, is_open, ok, new_ledger, remember_receipt,
}
use miriam.State.{ProposedAction, ActionType, Decision}
use miriam.Store.{LedgerStore}
use miriam.TransferReceipts.{Done, save_then}
use miriam.Transfer.{type_text}
use miriam.Settlement.{or_text, put_challenge, amount_of, counterparty_of}

abbrev pub challenge_ttl_minutes : ℕ
challenge_ttl_minutes = 30

-- `action.amount or Decimal("0")`
abbrev pub amount_or_nought : Option Decimal → Decimal
amount_or_nought none = whole (pos 0)
amount_or_nought (some d) = d

-- the suggestion, where the amount is above it
abbrev pub capped : Decimal → Option Decimal → Decimal
capped amount none = amount
capped amount (some suggested) = if ltb_dec suggested amount then suggested else amount

-- `f"confirm_{decision.id[-8:]}"`, of an id of ASCII characters, as every decision has
unfoldable pub confirm_id_of : String → String
confirm_id_of id = join "confirm_" (slice id (len id - 8) (len id))

-- the bindings that `_create_challenge` writes on a challenge
abbrev rail_stock_sleeve : Dict String
rail_stock_sleeve = ("strategy", "rail-stock-sleeve") ∷ []

abbrev rule_meta : Option (String × String) → Dict String
rule_meta none = []
rule_meta (some (k, v)) = (k, v) ∷ []

abbrev meta_by_type : ActionType → ProposedAction → Dict String
meta_by_type ActionType.invest a = rail_stock_sleeve
meta_by_type ActionType.order a =
    ("strategy", "rail-stock-sleeve")
    ∷ ("side", or_text a.side "buy")
    ∷ ("symbol", a.counterparty)
    ∷ []
meta_by_type ActionType.rebalance a = rail_stock_sleeve
meta_by_type ActionType.pause a = rail_stock_sleeve
meta_by_type ActionType.resume a = rail_stock_sleeve
meta_by_type ActionType.onramp a =
    ("side", "onramp")
    ∷ ("symbol", or_text a.counterparty "USDC")
    ∷ ("provider", "ramp")
    ∷ ("currency", "NGN")
    ∷ []
meta_by_type ActionType.bill a = ("category", a.category) ∷ ("recipient", a.counterparty) ∷ []
meta_by_type ActionType.offramp a =
    ("side", "offramp") ∷ ("currency", "NGN") ∷ ("provider", "paj") ∷ []
meta_by_type ActionType.save_rule a = rule_meta a.rule
meta_by_type _ a = []

unfoldable pub meta_of : ProposedAction → Dict String
meta_of a = meta_by_type a.type a

-- the challenge that `_create_challenge` stages
unfoldable pub staged : ℕ → Ledger → Decision → ProposedAction → Challenge
unfolding confirm_id_of meta_of
staged now l d a = record {
  id = confirm_id_of d.id;
  user_id = l.user_id;
  action = type_text a.type;
  amount = cents (money (capped (amount_or_nought a.amount) d.suggested_amount));
  counterparty = a.counterparty;
  destination = or_text a.counterparty a.sleeve;
  sleeve = a.sleeve;
  decision_id = d.id;
  reasons = d.reasons;
  created_at = now;
  expires_at = now + challenge_ttl_minutes * 60;
  status = pending;
  meta = meta_of a;
}

-- the receipt of a challenge that is closed and moves nothing
unfoldable pub closing_receipt :
    String → String → ℕ → String → Option Challenge → Reason → Ledger → Receipt
closing_receipt prefix action now confirm_id c reason l = record {
  id = join prefix (or_text confirm_id "missing");
  at = aware now;
  status = rejected;
  action = action;
  currency = l.currency;
  amount = amount_of c;
  counterparty = counterparty_of c;
  sleeve = "";
  decision_id = "";
  idempotency_key = "";
  reasons = reason ∷ [];
  sleeves_before = l.sleeves;
  sleeves_after = l.sleeves;
  rail_reference = "";
  confirm_id = "";
  idempotent_replay = false;
  verified = true;
}

-- `RETRIABLE_REASONS`
unfoldable pub is_retriable : Reason → Bool
is_retriable glider_unreachable = true
is_retriable glider_not_live = true
is_retriable rate_unavailable = true
is_retriable paj_initiate_failed = true
is_retriable onramp_failed = true
is_retriable no_go_token = true
is_retriable automations_unreachable = true
is_retriable _ = false

unfoldable pub has_retriable : List Reason → Bool
unfolding is_retriable
has_retriable [] = false
has_retriable (r ∷ rs) = is_retriable r || has_retriable rs

abbrev is_rejected : ReceiptStatus → Bool
is_rejected rejected = true
is_rejected _ = false

-- a rejection for a transient failure
unfoldable pub may_reopen : Receipt → Bool
unfolding has_retriable
may_reopen r = is_rejected r.status && has_retriable r.reasons

-- `maybe_reopen_challenge`, of the receipt that a leg has left
unfoldable pub maybe_reopen_challenge : Challenge → Receipt → Ledger → Ledger
maybe_reopen_challenge c r l = if may_reopen r then put_challenge pending c l else l

module _ {S : Type 0} (store : LedgerStore S) where
  -- `_create_challenge`, which returns the id
  unfoldable pub create_challenge : ℕ → Decision → ProposedAction → Ledger → S → Done String S
  unfolding staged
  create_challenge now d a l s =
      let c = staged now l d a in
      save_then store c.id (record l { challenges = insert c.id c l.challenges }) s

  -- `await store.load(user_id) or new_ledger(user_id)`; a failure ends the call
  abbrev pub loaded : String → Option Ledger → Ledger
  loaded user none = new_ledger user "NGN"
  loaded user (some l) = l

  abbrev close_if_open : ℕ → Option Challenge → Ledger → Ledger
  close_if_open now none l = l
  close_if_open now (some c) l = if is_open c now then put_challenge consumed c l else l

  -- `_decline_challenge`, on the ledger that it has loaded
  unfoldable pub decline_challenge : ℕ → String → Ledger → S → Done Receipt S
  unfolding closing_receipt
  decline_challenge now confirm_id l s =
      let c = lookup confirm_id l.challenges in
      let l' = close_if_open now c l in
      let r = closing_receipt "rcpt_declined_" "decline" now confirm_id c user_declined l' in
      save_then store r (remember_receipt r l') s

  -- `expire_challenge`, on the ledger that it has loaded: nothing where no challenge is open
  unfoldable pub expire_challenge : ℕ → String → Ledger → S → Done (Option Receipt) S
  unfolding closing_receipt
  expire_challenge now confirm_id l s = elim (lookup confirm_id l.challenges) [
    | none ↦ record { result = ok none; ledger = l; store = s }
    | some c ↦
        if is_open c now
        then (let l' = put_challenge expired c l in
            let r =
              closing_receipt "rcpt_expired_" "expire" now confirm_id (some c) challenge_expired
                l' in
            save_then store (some r) (remember_receipt r l') s)
        else record { result = ok none; ledger = l; store = s }
  ]
