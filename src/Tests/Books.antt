-- ===== src/Tests/Books.antt =====
-- Runs of the ledger, its window, its store, STATE and `money`.
use miriam.Prelude.{
  ◌≡◌, ◌≢◌, ◌↔◌, refl, int_laws, ◌≤◌, String, pos, true, false, none, some, [], ◌∷◌, length, lookup,
  eq_iff,
}
use mathlib.Core.Bool.{false≢true}
use miriam.Decimal.{Decimal, money}
use miriam.Ledger.{
  Ledger, Movement, outflow, ok, remember_receipt, receipt_for, find_receipt, balance,
}
use miriam.Ledger.Balances.{NonNeg}
use miriam.Ledger.Receipts.{receipt_for-remember_receipt}
use miriam.State.{build_state, require_complete, receipt_limit}
use miriam.State.Complete.{IsComplete, require_complete-build_state}
use miriam.Store.Redis.{RedisState, stored}
use miriam.Tests.Data.{ledger, policy, sent, send_twenty, approved}

-- an empty ledger has no negative balance
abbrev empty : Ledger
empty = record ledger { sleeves = [] }

empty-NonNeg : NonNeg empty
unfolding balance lookup
empty-NonNeg s = omega int_laws

spendable≢savings : ◌≢◌ {A = String} "spendable" "savings"
spendable≢savings e = false≢true ((eq_iff "spendable" "savings").1 e)

sent-Named : sent.idempotency_key ≢ ""
sent-Named e = false≢true ((eq_iff "dec_0:transfer:bob:20.00:spendable" "").1 e)

receipt_for-remember_receipt_example :
    receipt_for sent.idempotency_key 864000 (remember_receipt sent ledger) ≡ some sent
unfolding lookup find_receipt
receipt_for-remember_receipt_example =
    receipt_for-remember_receipt sent 864000 ledger sent-Named refl refl

abbrev known : Ledger
known = record ledger { processed = ("in_1", "rcpt_5") ∷ [] }

abbrev coffee : Movement
coffee = record {
  kind = outflow;
  amount = pos 450;
  sleeve = "spendable";
  to_sleeve = none;
  counterparty = "cafe";
  category = "food";
  ref = "t1";
  at = 860000;
}

abbrev unnamed : Movement
unnamed = record coffee { amount = pos 300; category = "" }

abbrev spent : Ledger
spent = record ledger { movements = coffee ∷ unnamed ∷ [] }

require_complete-build_state_example :
    ((require_complete (build_state ledger (some policy) (some send_twenty) (some approved) 864000)
        ≡ ok tt)
      ↔ IsComplete ledger (some policy))
    × (length
          (build_state ledger (some policy) (some send_twenty) (some approved) 864000).last_receipts
        ≤ receipt_limit)
require_complete-build_state_example =
    require_complete-build_state ledger (some policy) (some send_twenty) (some approved) 864000

-- a third of a euro, to four places
abbrev third : Decimal
third = record { coef = pos 3333; places = 4 }

-- 12.345 rounds up to 12.35
money_half : money (record { coef = pos 12345; places = 3 }) ≡ pos 1235
unfolding money
money_half = refl

abbrev outage : RedisState
outage = record {
  raws = ("ada", stored ledger) ∷ [];
  is_up = false;
  single_process = true;
  fallback = [];
}

abbrev recovered : RedisState
recovered = record {
  raws = [];
  is_up = true;
  single_process = true;
  fallback = ("ada", ledger) ∷ [];
}
