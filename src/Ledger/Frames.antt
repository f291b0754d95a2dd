-- ===== src/Ledger/Frames.antt =====
-- What `Ledger.debit`, `credit` and `move_internal` of miriam_agent/hands/ledger.py leave alone: the
-- challenges and the user.
use miriam.Prelude.{◌≡◌, arith, String, inl, inr}
use miriam.Decimal.{Decimal}
use miriam.Ledger.{Ledger, debit, credit, move_internal}
use miriam.Store.Race.{Result-cases}

pub debit-challenges :
    (sleeve : String) (amount : Decimal) (l : Ledger)
    → (debit sleeve amount l).1.challenges ≡ l.challenges
unfolding debit
debit-challenges sleeve amount l = ground arith

pub credit-challenges :
    (sleeve : String) (amount : Decimal) (l : Ledger)
    → (credit sleeve amount l).1.challenges ≡ l.challenges
unfolding credit
credit-challenges sleeve amount l = ground arith

pub move_internal-challenges :
    (f t : String) (amount : Decimal) (l : Ledger)
    → (move_internal f t amount l).1.challenges ≡ l.challenges
unfolding move_internal
move_internal-challenges f t amount l = elim (Result-cases (debit f amount l).0) [
  | inl (u, e) ↦
      ground
        (arith, e, debit-challenges f amount l, credit-challenges t amount (debit f amount l).1)
  | inr (x, e) ↦ ground (arith, e, debit-challenges f amount l)
]

pub debit-user :
    (sleeve : String) (amount : Decimal) (l : Ledger)
    → (debit sleeve amount l).1.user_id ≡ l.user_id
unfolding debit
debit-user sleeve amount l = ground arith

pub credit-user :
    (sleeve : String) (amount : Decimal) (l : Ledger)
    → (credit sleeve amount l).1.user_id ≡ l.user_id
unfolding credit
credit-user sleeve amount l = ground arith

pub move_internal-user :
    (f t : String) (amount : Decimal) (l : Ledger)
    → (move_internal f t amount l).1.user_id ≡ l.user_id
unfolding move_internal
move_internal-user f t amount l = elim (Result-cases (debit f amount l).0) [
  | inl (u, e) ↦ ground (arith, e, debit-user f amount l, credit-user t amount (debit f amount l).1)
  | inr (x, e) ↦ ground (arith, e, debit-user f amount l)
]
