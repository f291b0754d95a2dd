-- ===== src/Tests/Sleeves.antt =====
-- Runs of the debits, the moves between sleeves and the yield route.
use miriam.Prelude.{
  ◌≡◌, ◌≢◌, refl, arith, int_laws, ℕ, ◌⊎◌, String, ℤ, pos, ◌+ℤ◌, ◌-ℤ◌, ◌≤ℤ◌, ◌<ℤ◌, true, false,
  none, some, [], ◌∷◌, eq_iff,
}
use mathlib.Core.Bool.{false≢true}
use miriam.Decimal.{money}
use miriam.Ledger.{ok, err, Error, balance, is_known, receipt_for}
use miriam.Ledger.Balances.{net_worth}
use miriam.Limits.{Policy}
use miriam.Store.Memory.{memory_store}
use miriam.TransferReceipts.{Outcome}
use miriam.Moves.{handle_debit, move_between_sleeves, route_yield}
use miriam.Moves.Debits.{handle_debit-PaysOrKeeps}
use miriam.Moves.Redelivered.{handle_debit_twice}
use miriam.Moves.Unlocks.{move_between_sleeves-net_worth}
use miriam.Moves.Yields.{Parked, route_yield-Parked}
use miriam.Tests.Data.{env, later, policy, ledger, stored, twenty}

handle_debit-PaysOrKeeps_example :
    let l = (handle_debit memory_store env "pay_1" twenty "chargeback" ledger stored).ledger in
    (l.sleeves ≡ ledger.sleeves)
    ⊎ ((pos 0 <ℤ money twenty)
        × (money twenty ≤ℤ balance ledger "spendable")
        × (net_worth l +ℤ money twenty ≡ net_worth ledger))
handle_debit-PaysOrKeeps_example =
    handle_debit-PaysOrKeeps memory_store env "pay_1" twenty "chargeback" ledger stored

pay_1-Named : ◌≢◌ {A = String} "pay_1" ""
pay_1-Named e = false≢true ((eq_iff "pay_1" "").1 e)

handle_debit_twice_example :
    let first = handle_debit memory_store env "pay_1" twenty "chargeback" ledger stored in
    let again =
      handle_debit memory_store later "pay_1" twenty "chargeback" first.ledger first.store in
    ((memory_store.load ledger.user_id first.store ≡ ok (some first.ledger))
      × (again.ledger ≡ first.ledger)
      × (again.store ≡ first.store)
      × ((o : Outcome) × (again.result ≡ ok o) × (o.receipt.idempotent_replay ≡ true)))
    ⊎ ((e : Error) × (first.result ≡ err e) × (first.store ≡ stored))
unfolding miriam.Prelude.lookup miriam.Store.Memory.load
handle_debit_twice_example =
    handle_debit_twice memory_store env later "pay_1" twenty twenty "chargeback" ledger stored
      pay_1-Named refl

move_between_sleeves-net_worth_example :
    net_worth
      (move_between_sleeves memory_store env policy "spendable" "savings" twenty "internal_move"
        "dec_1" ledger stored).ledger
    ≡ net_worth ledger
unfolding is_known
move_between_sleeves-net_worth_example =
    move_between_sleeves-net_worth memory_store env policy "spendable" "savings" twenty
      "internal_move" "dec_1" ledger stored refl refl

-- a policy that lets its user unlock
abbrev open_policy : Policy
open_policy = record policy { locked_sleeves = [] }

savings≢yield : ◌≢◌ {A = String} "savings" "yield"
savings≢yield e = false≢true ((eq_iff "savings" "yield").1 e)

savings≢spendable : ◌≢◌ {A = String} "savings" "spendable"
savings≢spendable e = false≢true ((eq_iff "savings" "spendable").1 e)

route_yield-Parked_example :
    Parked memory_store env policy ledger stored
      (money twenty)
      (route_yield memory_store env policy none twenty "dec_1" ledger stored).0
unfolding receipt_for is_known miriam.Prelude.lookup money balance
route_yield-Parked_example =
    route_yield-Parked memory_store env policy ledger stored none twenty "dec_1" refl refl refl
      savings≢yield savings≢spendable (omega int_laws)

in_1-IsNamed : ◌≢◌ {A = String} "in_1" ""
in_1-IsNamed e = false≢true ((eq_iff "in_1" "").1 e)
