-- ===== src/Tests/Splits.antt =====
-- Runs of `split_inflow`.
use miriam.Prelude.{
  ◌≡◌, ◌≢◌, refl, arith, int_laws, ℕ, ◌≤◌, ◌⊎◌, String, ℤ, pos, negsuc, ◌+ℤ◌, ◌≤ℤ◌, ◌<ℤ◌, true,
  false, none, some, [], ◌∷◌, eq_iff, ap,
}
use mathlib.Core.Bool.{false≢true}
use miriam.Decimal.{Decimal, money, cents, whole}
use miriam.Ledger.{Ledger, ok, err, Error, receipt_for, remember_receipt}
use miriam.Ledger.Balances.{net_worth}
use miriam.Store.Memory.{memory_store}
use miriam.TransferReceipts.Saving.{Saved}
use miriam.Split.{InflowRequest, SplitOutcome, split_parts, split_inflow}
use miriam.Split.Inflow.{split_inflow_conserves, split_inflow_twice, outcome, noted, receipt}
use miriam.Tests.Data.{env, later, ledger, stored, inflow}

split_inflow_conserves_example :
    let d = split_inflow memory_store env inflow ledger stored in
    (net_worth d.ledger ≡ net_worth ledger +ℤ pos 5000)
    × Saved memory_store
        (outcome memory_store env inflow ledger stored)
        (remember_receipt
          (receipt memory_store env inflow ledger stored)
          (noted memory_store env inflow ledger stored))
        stored
        d
unfolding receipt_for money miriam.Prelude.lookup split_parts miriam.Prelude.◌-ℤ◌
    miriam.Decimal.percent_of miriam.Prelude.◌*ℤ◌
split_inflow_conserves_example =
    split_inflow_conserves memory_store env inflow ledger stored refl
      (omega int_laws, omega int_laws, omega int_laws)

in_1-Named : ◌≢◌ {A = String} "in_1" ""
in_1-Named e = false≢true ((eq_iff "in_1" "").1 e)

split_inflow_twice_example :
    let first = split_inflow memory_store env inflow ledger stored in
    let again = split_inflow memory_store later inflow first.ledger first.store in
    ((memory_store.load ledger.user_id first.store ≡ ok (some first.ledger))
      × (again.ledger ≡ first.ledger)
      × (again.store ≡ first.store)
      × ((o : SplitOutcome) × (again.result ≡ ok o)
          × (o.parts ≡ [])
          × (o.receipt.idempotent_replay ≡ true)))
    ⊎ ((e : Error) × (first.result ≡ err e) × (first.store ≡ stored))
unfolding receipt_for miriam.Prelude.lookup
split_inflow_twice_example =
    split_inflow_twice memory_store env later inflow ledger stored in_1-Named refl

-- a track that saves half and sends half to the yield, and an inflow of one cent
abbrev halves : Ledger
halves = record ledger {
  track = record {
    name = "0/50/50";
    spend = whole (pos 0);
    save = whole (pos 50);
    yield_ = whole (pos 50);
  };
}

abbrev one_cent : InflowRequest
one_cent = record inflow { amount = cents (pos 1) }
