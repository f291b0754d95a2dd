-- ===== src/State/Complete.antt =====
-- When STATE of miriam_agent/hands/state.py is complete.
use miriam.Prelude.{
  ◌≡◌, ◌↔◌, arith, ℕ, true, false, Option, lookup, is_some, length, length-keep_last, ◌≤◌, str_eq,
}
use miriam.Ledger.{Ledger, ok}
use miriam.Limits.{Policy}
use miriam.State.{ProposedAction, Decision, build_state, require_complete, receipt_limit}

-- What a ledger must answer before anything moves.
pub record IsComplete (l : Ledger) (p : Option Policy) : Type 0 where
  pub named : str_eq l.user_id "" ≡ false
  pub priced : str_eq l.currency "" ≡ false
  pub spendable : is_some (lookup "spendable" l.sleeves) ≡ true
  pub savings : is_some (lookup "savings" l.sleeves) ≡ true
  pub yield : is_some (lookup "yield" l.sleeves) ≡ true
  pub locked : is_some (lookup "locked" l.sleeves) ≡ true
  pub ruled : is_some p ≡ true

module _ (l : Ledger) (p : Option Policy) (a : Option ProposedAction) (d : Option Decision)
    (now : ℕ) where
  IsComplete-inversion : require_complete (build_state l p a d now) ≡ ok tt → IsComplete l p
  unfolding require_complete build_state
  IsComplete-inversion h = ground arith

  IsComplete-build : IsComplete l p → require_complete (build_state l p a d now) ≡ ok tt
  unfolding require_complete build_state
  IsComplete-build c = ground arith

  -- A STATE that is built from a ledger is complete, so that Hands may execute on it, exactly when
  -- the ledger names its user and its currency and holds all four sleeves, and there is a policy;
  -- and it carries at most five receipts.
  pub require_complete-build_state :
      ((require_complete (build_state l p a d now) ≡ ok tt) ↔ IsComplete l p)
      × (length (build_state l p a d now).last_receipts ≤ receipt_limit)
  unfolding build_state
  require_complete-build_state =
      ((IsComplete-inversion, IsComplete-build), length-keep_last receipt_limit l.receipts)
