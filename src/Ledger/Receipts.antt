-- ===== src/Ledger/Receipts.antt =====
-- The idempotency keys and the receipts of miriam_agent/hands/ledger.py: `remember_receipt`,
-- `record_movement` and `receipt_for`.
use miriam.Prelude.{
  ℕ, zero, suc, ◌-◌, ◌≤◌, ◌≡◌, ◌≢◌, String, true, none, some, List, [], ◌∷◌, ◌++◌, arith, lookup,
  set_default, get_or, is_some, lookup-insert, lookup-insert_self, length, drop, keep_last,
  length-append, length-keep_last, eq_iff, eq_refl, Option-cases, inl, inr, sym, ◌∙◌,
}
use mathlib.Core.Path.{subst}
use miriam.Audit.{Receipt}
use miriam.Ledger.{
  Ledger, Movement, remember_receipt, record_movement, receipt_for, find_receipt, receipt_retention,
  movement_retention, archived,
}

-- the idempotency key has been processed
abbrev pub IsProcessed : String → Ledger → Type 0
IsProcessed key l = is_some (lookup key l.processed) ≡ true

-- Remembering a receipt keeps every processed key, with the receipt id that it had.
pub remember_receipt-keeps :
    (key id : String) (r : Receipt) (l : Ledger)
    → lookup key l.processed ≡ some id
    → lookup key (remember_receipt r l).processed ≡ some id
unfolding remember_receipt set_default
remember_receipt-keeps key id r l h =
    ground
      (arith, lookup-insert r.idempotency_key key r.id l.processed, eq_iff r.idempotency_key key)

pub remember_receipt-IsProcessed :
    (r : Receipt) (l : Ledger)
    → r.idempotency_key ≢ ""
    → IsProcessed r.idempotency_key (remember_receipt r l)
unfolding remember_receipt set_default
remember_receipt-IsProcessed r l h =
    ground
      (arith, lookup-insert_self r.idempotency_key r.id l.processed, eq_iff r.idempotency_key "")

-- A processed key is answered with a receipt, whatever has been trimmed.
pub receipt_for-IsProcessed :
    (key : String) (now : ℕ) (l : Ledger)
    → IsProcessed key l
    → (r : Receipt) × (receipt_for key now l ≡ some r)
unfolding receipt_for
receipt_for-IsProcessed key now l h = elim (Option-cases (lookup key l.processed)) [
  | inl e ↦ absurd (cc (e, h))
  | inr (id, e) ↦ (get_or (find_receipt id l.receipts) (archived l key id now), ground (arith, e))
]

pub receipt_for-none :
    (key : String) (now : ℕ) (l : Ledger)
    → receipt_for key now l ≡ none
    → lookup key l.processed ≡ none
unfolding receipt_for
receipt_for-none key now l h = ground arith

pub receipt_for-some :
    (key : String) (now : ℕ) (l : Ledger) {r : Receipt}
    → receipt_for key now l ≡ some r
    → IsProcessed key l
unfolding receipt_for
receipt_for-some key now l h = ground arith

-- under the key that the receipt carries, by whatever name
pub IsProcessed-key :
    (r : Receipt) (l : Ledger) (key : String)
    → r.idempotency_key ≡ key
    → key ≢ ""
    → IsProcessed key (remember_receipt r l)
IsProcessed-key r l key e named =
    subst (λ k. IsProcessed k (remember_receipt r l)) e
      (remember_receipt-IsProcessed r l (λ empty. named (sym e ∙ empty)))

-- The journal bounds: no more than 500 receipts and 2000 movements are kept.
pub remember_receipt_bound :
    (r : Receipt) (l : Ledger) → length (remember_receipt r l).receipts ≤ receipt_retention
unfolding remember_receipt
remember_receipt_bound r l = length-keep_last receipt_retention (l.receipts ++ (r ∷ []))

pub record_movement_bound :
    (m : Movement) (l : Ledger) → length (record_movement m l).movements ≤ movement_retention
unfolding record_movement
record_movement_bound m l = length-keep_last movement_retention (l.movements ++ (m ∷ []))

find_receipt-drop :
    (n : ℕ) (rs : List Receipt) (r : Receipt)
    → n ≤ length rs
    → find_receipt r.id rs ≡ none
    → find_receipt r.id (drop n (rs ++ (r ∷ []))) ≡ some r
unfolding find_receipt
find_receipt-drop zero [] r h e = ground (arith, eq_refl r.id)
find_receipt-drop (suc n) [] r h e = absurd (omega arith)
find_receipt-drop zero (x ∷ rs) r h e = ground (arith, find_receipt-drop zero rs r)
find_receipt-drop (suc n) (x ∷ rs) r h e = ground (arith, find_receipt-drop n rs r)

-- A receipt that is remembered under a key that is not empty and new, with an id that no kept
-- receipt has, is what the key is answered with.
pub receipt_for-remember_receipt :
    (r : Receipt) (now : ℕ) (l : Ledger)
    → r.idempotency_key ≢ ""
    → lookup r.idempotency_key l.processed ≡ none
    → find_receipt r.id l.receipts ≡ none
    → receipt_for r.idempotency_key now (remember_receipt r l) ≡ some r
unfolding receipt_for remember_receipt set_default keep_last
receipt_for-remember_receipt r now l named new fresh = ground (
  arith,
  eq_iff r.idempotency_key "",
  lookup-insert_self r.idempotency_key r.id l.processed,
  length-append l.receipts (r ∷ []),
  find_receipt-drop (length (l.receipts ++ (r ∷ [])) - receipt_retention) l.receipts r,
)
