-- ===== src/Split/Frames.antt =====
-- Whose ledger it is that `split_inflow` of miriam_agent/hands/split.py saves.
use miriam.Prelude.{
  Bool, true, false, pos, ltb_ℤ, if◌then◌else◌, ◌≡◌, refl, ◌∙◌, ℕ, ℤ, [], ◌∷◌, Dict,
}
use miriam.Ledger.{Ledger, Result, ok, err, and_then}
use miriam.Ledger.Frames.{credit-user, move_internal-user}
use miriam.Decimal.{cents}
use miriam.TransferReceipts.{Env}
use miriam.Split.{credit_parts, record_reserve, reserve_rent, credited, apply_split, InflowRequest}

and_then-user :
    (l₀ : Ledger) (r : Result (Unit {0}) × Ledger) (f : Ledger → Result (Unit {0}) × Ledger)
    → r.1.user_id ≡ l₀.user_id
    → ((l : Ledger) → (f l).1.user_id ≡ l.user_id)
    → (and_then r f).1.user_id ≡ l₀.user_id
and_then-user l₀ (ok u, l) f h k = k l ∙ h
and_then-user l₀ (err e, l) f h k = h

if-user :
    (l₀ : Ledger) (b : Bool) (x y : Result (Unit {0}) × Ledger)
    → x.1.user_id ≡ l₀.user_id
    → y.1.user_id ≡ l₀.user_id
    → (if b then x else y).1.user_id ≡ l₀.user_id
if-user l₀ true x y h k = h
if-user l₀ false x y h k = k

credit_parts-user : (d : Dict ℤ) (l : Ledger) → (credit_parts d l).1.user_id ≡ l.user_id
unfolding credit_parts
credit_parts-user [] l = refl
credit_parts-user ((s, v) ∷ d) l =
    and_then-user l _ _ (if-user l (ltb_ℤ (pos 0) v) _ _ (credit-user s (cents v) l) refl)
      (λ k. credit_parts-user d k)

credited-user :
    (env : Env) (q : InflowRequest) (l : Ledger) → (credited env q l).1.user_id ≡ l.user_id
unfolding credited miriam.Ledger.record_movement
credited-user env q l = and_then-user l _ _ (credit_parts-user _ l) (λ k. refl)

reserve_rent-user :
    (at : ℕ) (reserved : ℤ) (l : Ledger) → (reserve_rent at reserved l).1.user_id ≡ l.user_id
unfolding reserve_rent record_reserve miriam.Ledger.record_movement
reserve_rent-user at reserved l =
    if-user l (ltb_ℤ (pos 0) reserved) _ _
      (and_then-user l _ (λ k. (ok tt, record_reserve at reserved k))
        (move_internal-user "spendable" "locked" (cents reserved) l) (λ k. refl))
      refl

-- The movement of an inflow leaves the user of the ledger.
pub apply_split-user :
    (env : Env) (q : InflowRequest) (l : Ledger) → (apply_split env q l).1.user_id ≡ l.user_id
unfolding apply_split
apply_split-user env q l =
    and_then-user l _ _ (credited-user env q l) (λ k. reserve_rent-user _ _ k)
