-- ===== src/Tests/Agreements.antt =====
-- Runs of the two journals side by side, of the reconciliation and of repeated inflows.
use miriam.Prelude.{
  ◌≡◌, refl, ◌↔◌, arith, ℤ, pos, String, Bool, true, false, Option, none, some, List, [], ◌∷◌, Dict,
  All, str_eq,
}
use miriam.Decimal.{cents}
use miriam.Store.Memory.{MemoryState, memory_store}
use miriam.Journal.Sql.{Claim}
use miriam.Journal.Sql.Table.{table}
use miriam.Journal.Sql.Agreement.{
  Request, claim, mark_dispatched, mark_confirmed, mark_failed, query, sql_replies, memory_replies,
  sql_replies-memory_replies,
}
use miriam.Reconcile.{JournalRow, reconcile}
use miriam.Reconcile.Drift.{AgreesIfKeyed, Journaled, reconcile-clean_iff}
use miriam.Payments.{Identity}
use miriam.Payments.Stores.{memory_refs}
use miriam.Inflows.{Desk, Delivery, Stores, deliver}
use miriam.Inflows.Repeats.{IsReplay, claimed_payment-IsNotCredited}
use miriam.Tests.Data.{env, later, policy, ledger, stored, sent}

abbrev a_claim : Claim
a_claim = record {
  key = "k";
  user_id = "ada";
  action = "transfer";
  amount = "20.00";
  currency = "USD";
  counterparty = "bob";
  sleeve = "spendable";
  decision_id = "dec_1";
}

abbrev requests : List Request
requests =
    claim a_claim
    ∷ mark_dispatched "k" ""
    ∷ claim a_claim
    ∷ mark_confirmed "k" "rail_7"
    ∷ mark_failed "k"
    ∷ query "k"
    ∷ []

sql_replies-memory_replies_example : sql_replies table requests [] ≡ memory_replies requests []
unfolding miriam.Journal.status_of miriam.Journal.Sql.status_of miriam.Prelude.lookup
    miriam.Journal.Sql.Table.select
sql_replies-memory_replies_example = sql_replies-memory_replies table requests [] [] (λ k. refl)

abbrev rows : List JournalRow
rows = record { idempotency_key = "k"; status = "dispatched"; rail_reference = "rail_7" } ∷ []

reconcile-clean_iff_example :
    ((reconcile rows (sent ∷ []) [] (some ("rail_7" ∷ []))).findings ≡ [])
    ↔ (All (AgreesIfKeyed (sent ∷ []) [] (some ("rail_7" ∷ []))) rows × Journaled (sent ∷ []) rows)
reconcile-clean_iff_example = reconcile-clean_iff rows (sent ∷ []) [] (some ("rail_7" ∷ []))

abbrev identity : Identity
identity = record { normalise = λ s. s; digest = λ k. k.reference }

abbrev desk : Desk
desk = record {
  env = env;
  clock_id = "inflow_864000";
  policy = policy;
  identity = identity;
  judgment = none;
  decision_id = "dec_2";
}

-- 50.00 from ACME, to ada, and the same alert in other words
abbrev delivery : Delivery
delivery = record {
  user_id = "ada";
  inflow_id = "in_1";
  amount = some (cents (pos 5000));
  source_raw = "ACME PAYROLL";
  channel = "gtbank";
  sender_handle = "acme";
  reference = "ref_1";
}

abbrev reworded : Delivery
reworded = record delivery { inflow_id = "in_2"; source_raw = "Credit: ACME" }

claimed_payment-IsNotCredited_example :
    let (x, w) =
      deliver memory_store memory_refs desk delivery
        (record { ledgers = stored; refs = some [] }) in
    let (x', w') =
      deliver memory_store memory_refs
        (record desk { env = later })
        reworded
        (record { ledgers = stored; refs = w.refs }) in
    IsReplay x' × (w'.ledgers ≡ stored)
unfolding miriam.Payments.is_complete miriam.Inflows.key_for miriam.Store.Memory.load
    miriam.Prelude.lookup
claimed_payment-IsNotCredited_example =
    claimed_payment-IsNotCredited memory_store memory_refs desk (record desk { env = later })
      delivery reworded (cents (pos 5000)) (cents (pos 5000)) (some ledger) (some ledger) stored
      stored [] (record { given = refl; complete = refl; loads = refl })
      (record { given = refl; complete = refl; loads = refl }) refl
