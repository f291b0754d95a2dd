-- ===== src/Tests/Data.antt =====
-- The user, the policy, the rail and the stores of the tests.
use miriam.Prelude.{◌+◌, ◌-◌, ◌*◌, ◌/◌, ◌%◌, ℤ, pos, true, false, none, some, [], ◌∷◌, Dict}
use miriam.Decimal.{Decimal, cents, whole}
use miriam.Audit.{Receipt, executed, aware}
use miriam.Ledger.{Ledger, RentFirst}
use miriam.Limits.{Policy, Zone}
use miriam.State.{ProposedAction, ActionType, Decision, act, allow, deny, HandlerState, build_state}
use miriam.TransferReceipts.{Env}
use miriam.Transfer.{Rail, Faults, Request, World}
use miriam.Split.{InflowRequest}
use miriam.Store.Memory.{MemoryState}

abbrev pub env : Env
env = record {
  receipt_id = "rcpt_1";
  audit_id = "audit_1";
  at = 864000;
  text = λ d. "20.00";
  date_text = "1970-01-11";
  fresh_key = "k_1";
}

abbrev pub later : Env
later = record env { receipt_id = "rcpt_2"; audit_id = "audit_2"; at = 867600 }

abbrev pub utc : Zone
utc = record {
  midnight = λ at. at - at % 86400;
  weekday = λ at. (at / 86400 + 3) % 7;
  days_before = λ at n. at - n * 86400;
}

abbrev pub policy : Policy
policy = record {
  max_auto = pos 5000;
  max_with_confirm = pos 50000;
  reversible_under = pos 5000;
  max_daily = pos 100000;
  max_weekly = pos 500000;
  max_per_hour = 20;
  locked_sleeves = "locked" ∷ [];
  yield_fallback = "savings";
}

-- 100.00 spendable, 10.00 saved, 60.00 locked, of which 40.00 for a rent of 70.00
abbrev pub sleeves : Dict ℤ
sleeves =
    ("spendable", pos 10000) ∷ ("savings", pos 1000) ∷ ("yield", pos 0) ∷ ("locked", pos 6000) ∷ []

abbrev pub rent : RentFirst
rent = record { required = pos 7000; reserved = pos 4000; due_in_days = some 9 }

abbrev pub ledger : Ledger
ledger = record {
  user_id = "ada";
  currency = "USD";
  sleeves = sleeves;
  track = record {
    name = "70/30";
    spend = whole (pos 70);
    save = whole (pos 30);
    yield_ = whole (pos 0);
  };
  rent_first = rent;
  movements = [];
  receipts = [];
  challenges = [];
  pending_inflow = none;
  processed = [];
  version = 3;
}

abbrev pub stored : MemoryState
stored = ("ada", ledger) ∷ []

abbrev pub rail : Rail
rail = record {
  execute = λ i. record { ok = true; reference = "rail_7" };
  reverse = λ i ref. record { ok = false; reference = "" };
}

abbrev pub no_faults : Faults
no_faults = record { journal_down = false; dispatch_mark_lost = false; settle_mark_lost = false }

-- 20.00 to bob
abbrev pub twenty : Decimal
twenty = cents (pos 2000)

abbrev pub send_twenty : ProposedAction
send_twenty = record {
  type = ActionType.transfer;
  amount = some twenty;
  counterparty = "bob";
  sleeve = "spendable";
  side = "";
  category = "";
  rule = none;
}

abbrev pub approved : Decision
approved = record {
  id = "dec_1";
  inflow_class = "unknown";
  next_mode = act;
  action_choice = allow;
  suggested_amount = none;
  reasons = [];
  degraded = false;
}

abbrev pub denied : Decision
denied = record {
  id = "dec_1";
  inflow_class = "unknown";
  next_mode = act;
  action_choice = deny;
  suggested_amount = none;
  reasons = [];
  degraded = false;
}

abbrev pub state_of : Decision → HandlerState
state_of d = build_state ledger (some policy) (some send_twenty) (some d) 864000

abbrev pub request : Decision → ProposedAction → Request
request d a = record {
  env = env;
  faults = no_faults;
  zone = utc;
  policy = policy;
  rail = rail;
  state = state_of d;
  action = a;
  amount = twenty;
}

abbrev pub world : World MemoryState
world = record { ledger = ledger; store = stored; journal = []; calls = []; reversals = [] }

-- an inflow of 50.00
abbrev pub inflow : InflowRequest
inflow = record {
  id = "in_1";
  amount = cents (pos 5000);
  source_raw = "ACME PAYROLL";
  classified_as = none;
  verified = true;
}

-- a settled send of 20.00
abbrev pub sent : Receipt
sent = record {
  id = "rcpt_0";
  at = aware 863000;
  status = executed;
  action = "transfer";
  currency = "USD";
  amount = some twenty;
  counterparty = "bob";
  sleeve = "spendable";
  decision_id = "dec_0";
  idempotency_key = "dec_0:transfer:bob:20.00:spendable";
  reasons = [];
  sleeves_before = sleeves;
  sleeves_after = sleeves;
  rail_reference = "rail_6";
  confirm_id = "dec_0";
  idempotent_replay = false;
  verified = true;
}
